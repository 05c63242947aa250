-- ===== src/Runtime/Persist/Atomic.antt =====
-- What the file operations of src/runtime.rs leave on the disk, finished or not.
use macmapd.Base.{◌≡◌, ◌≢◌, inl, inr, refl, sym, ◌∙◌, Bool, true, false, none, some, Bytes, All, ok}
use macmapd.Runtime.Persist.{
  Disk, put, operations, temp_name, Run, run, Persisted, clean_up, System, persist_blocking,
}
use macmapd.Runtime.Persist.Steps.{
  flushed_file, IsEither, IsRun, put_self, put_other, temp_name_ne, operations-IsRun,
}

-- A call: what it leaves on the way and at the end.
pub record IsSaved (temp name bytes : Bytes) (old : Disk) (removable : Bool) (p : Persisted)
    : Type 0 where
  pub on_the_way : All (IsEither temp name bytes old) p.seen
  pub at_end : IsEither temp name bytes old p.disk
  pub saved : p.result ≡ ok tt → p.disk name ≡ some (flushed_file bytes true)
  pub cleaned : removable ≡ true → p.disk temp ≡ none

module _ (temp name bytes : Bytes) (apart : temp ≢ name) (old : Disk) where
  removed-IsEither :
      (disk : Disk)
      → IsEither temp name bytes old disk
      → IsEither temp name bytes old (put temp none disk)
  removed-IsEither disk h = record {
    file = elim h.file [
      | inl e ↦ inl (put_other name temp none disk (λ e. apart (sym e)) ∙ e)
      | inr (linked, e) ↦ inr (linked, put_other name temp none disk (λ e. apart (sym e)) ∙ e)
    ];
    others = λ k a b. put_other k temp none disk a ∙ h.others k a b;
  }

  clean_up-IsSaved :
      (removable : Bool) (r : Run) (done : Bool)
      → r.done ≡ done
      → IsRun temp name bytes apart old r
      → IsSaved temp name bytes old removable (clean_up temp removable r)
  unfolding clean_up
  clean_up-IsSaved removable r true e h = rw e (record {
    on_the_way = h.on_the_way;
    at_end = h.at_end;
    saved = λ d. (h.finished e).0;
    cleaned = λ d. (h.finished e).1;
  })
  clean_up-IsSaved true r false e h =
      let end = removed-IsEither r.disk h.at_end in
      rw e (record {
        on_the_way = (end, h.on_the_way);
        at_end = end;
        saved = λ d. absurd cc;
        cleaned = λ d. put_self temp none r.disk;
      })
  clean_up-IsSaved false r false e h = rw e (record {
    on_the_way = h.on_the_way;
    at_end = h.at_end;
    saved = λ d. absurd cc;
    cleaned = λ d. absurd cc;
  })

-- Whatever operation fails, and wherever the write is cut: at every moment of a call the state file
-- is the old one or the whole new one, and no other file is touched but the temporary one; a call
-- that succeeds has saved the new content; and a call leaves no temporary file, unless it cannot be
-- removed. The directory is there.
pub persist_blocking-IsSaved :
    (system : System) (name bytes : Bytes) (old : Disk)
    → system.directory ≡ true
    → let temp = temp_name name system.pid system.sequence in
      IsSaved temp name bytes old system.removable (persist_blocking system (some name) bytes old)
unfolding persist_blocking
persist_blocking-IsSaved system name bytes old h =
    let temp = temp_name name system.pid system.sequence in
    let apart = temp_name_ne name system.pid system.sequence in
    rw h (
      clean_up-IsSaved temp name bytes apart old system.removable
        (run temp name system.fails (operations system.cuts bytes) old) _ refl
        (operations-IsRun temp name bytes apart old system.cuts system.fails))
