-- ===== src/Runtime/Persist/Steps.antt =====
-- The file operations of src/runtime.rs, one after the other.
use mathlib.Core.Path.{subst}
use macmapd.Base.{
  Bool, ℕ, zero, suc, ascii, ◌≡◌, ◌≢◌, ◌⊎◌, inl, inr, refl, sym, ap, ◌∙◌, true, false, Option, none,
  some, List, [], ◌∷◌, ◌++◌, Bytes, All, bytes_eq, bytes_eq_iff, bytes_eq_refl, length,
  length-append, drop, take, take-append-drop, arith, append_assoc, Option-cases,
}
use macmapd.Text.Decimal.{decimal}
use macmapd.Runtime.Persist.{
  File, Disk, put, Op, create, write, sync, rename, open_parent, sync_parent, writes, operations,
  temp_name, perform, Run, stopped, after, onward, run,
}

pub put_self :
    (name : Bytes) (content : Option File) (disk : Disk) → put name content disk name ≡ content
unfolding put
put_self name content disk = rw (bytes_eq_refl name) refl

bytes_differ : (k name : Bytes) → k ≢ name → bytes_eq k name ≡ false
bytes_differ k name h = ground (arith, bytes_eq_iff k name)

pub put_other :
    (k name : Bytes) (content : Option File) (disk : Disk)
    → k ≢ name
    → put name content disk k ≡ disk k
unfolding put
put_other k name content disk h = rw (bytes_differ k name h) refl

-- The temporary file is another file than the state file.
pub temp_name_ne : (name : Bytes) (pid sequence : ℕ) → temp_name name pid sequence ≢ name
unfolding temp_name
temp_name_ne name pid sequence e =
    let rest : Bytes = b'.' ∷ (decimal pid ++ (b'.' ∷ (decimal sequence ++ ascii ".tmp"))) in
    let n = ap (length {A = ℕ}) e in omega (arith, n, length-append name rest)

-- A whole file on the medium; its name may not be yet.
abbrev pub flushed_file : Bytes → Bool → File
flushed_file bytes linked = record { bytes = bytes; synced = true; linked = linked }

abbrev partial_file : Bytes → Bool → File
partial_file bytes synced = record { bytes = bytes; synced = synced; linked = false }

-- A disk on the way: the state file is the old one or the whole new one, whose bytes are on the
-- medium, and no other file is touched but the temporary one.
pub record IsEither (temp name bytes : Bytes) (old disk : Disk) : Type 0 where
  pub file :
      (disk name ≡ old name) ⊎ ((linked : Bool) × (disk name ≡ some (flushed_file bytes linked)))
  pub others : (k : Bytes) → k ≢ temp → k ≢ name → disk k ≡ old k

module _ (temp name bytes : Bytes) (apart : temp ≢ name) (old : Disk) where
  -- Before the rename, with what was written.
  record Before (content : Bytes) (synced : Bool) (disk : Disk) : Type 0 where
    same : (k : Bytes) → k ≢ temp → disk k ≡ old k
    partial : disk temp ≡ some (partial_file content synced)

  -- A whole run.
  pub record IsRun (r : Run) : Type 0 where
    pub on_the_way : All (IsEither temp name bytes old) r.seen
    pub at_end : IsEither temp name bytes old r.disk
    pub finished :
        r.done ≡ true → (r.disk name ≡ some (flushed_file bytes true)) × (r.disk temp ≡ none)

  pub apart_sym : name ≢ temp
  apart_sym = λ e. apart (sym e)

  either :
      {content : Bytes} {synced : Bool} {disk : Disk}
      → Before content synced disk
      → IsEither temp name bytes old disk
  either h = record { file = inl (h.same name apart_sym); others = λ k n m. h.same k n }

  stopped-IsRun : (disk : Disk) → IsEither temp name bytes old disk → IsRun (stopped false disk)
  stopped-IsRun disk h = record { on_the_way = (h, tt); at_end = h; finished = λ e. absurd cc }

  after-IsRun :
      (disk : Disk) (r : Run) → IsEither temp name bytes old disk → IsRun r → IsRun (after disk r)
  after-IsRun disk r h k = record {
    on_the_way = (h, k.on_the_way);
    at_end = k.at_end;
    finished = k.finished;
  }

  -- One operation that can be done.
  step-IsRun :
      (op : Op) (ops : List Op) (fails : ℕ) (disk next : Disk)
      → IsEither temp name bytes old disk
      → perform temp name op disk ≡ some next
      → ((n : ℕ) → IsRun (run temp name n ops next))
      → IsRun (run temp name fails (op ∷ ops) disk)
  unfolding run
  step-IsRun op ops zero disk next h e k = stopped-IsRun disk h
  step-IsRun op ops (suc n) disk next h e k =
      subst (λ o. IsRun (onward (run temp name n ops) disk o)) (sym e) (after-IsRun disk _ h (k n))

  -- The disk with the new state file.
  renamed_disk : Bool → Disk → Disk
  renamed_disk linked disk = put temp none (put name (some (flushed_file bytes linked)) disk)

  renamed_there :
      (linked : Bool) (disk : Disk)
      → renamed_disk linked disk name ≡ some (flushed_file bytes linked)
  unfolding renamed_disk
  renamed_there linked disk =
      put_other name temp none (put name (some (flushed_file bytes linked)) disk) apart_sym
      ∙ put_self name (some (flushed_file bytes linked)) disk

  renamed-IsEither :
      (linked : Bool) (disk : Disk)
      → Before bytes true disk
      → IsEither temp name bytes old (renamed_disk linked disk)
  unfolding renamed_disk
  renamed-IsEither linked disk h = record {
    file = inr (linked, renamed_there linked disk);
    others = λ k n m.
        put_other k temp none (put name (some (flushed_file bytes linked)) disk) n
        ∙ put_other k name (some (flushed_file bytes linked)) disk m
        ∙ h.same k n;
  }

  -- The end of a run; the last operation writes the name again.
  settled_disk : Disk → Disk
  settled_disk disk = put name (some (flushed_file bytes true)) (renamed_disk false disk)

  settled-IsEither :
      (disk : Disk) → Before bytes true disk → IsEither temp name bytes old (settled_disk disk)
  unfolding settled_disk
  settled-IsEither disk h = record {
    file = inr (true, put_self name (some (flushed_file bytes true)) (renamed_disk false disk));
    others = λ k n m.
        put_other k name (some (flushed_file bytes true)) (renamed_disk false disk) m
        ∙ (renamed-IsEither false disk h).others k n m;
  }

  done-IsRun :
      (disk : Disk) (n : ℕ)
      → Before bytes true disk
      → IsRun (run temp name n [] (settled_disk disk))
  unfolding run settled_disk renamed_disk
  done-IsRun disk n h =
      let e = settled-IsEither disk h in
      record {
        on_the_way = (e, tt);
        at_end = e;
        finished = λ d. (
          put_self name (some (flushed_file bytes true)) (renamed_disk false disk),
          put_other temp name (some (flushed_file bytes true)) (renamed_disk false disk) apart
              ∙ put_self temp none (put name (some (flushed_file bytes false)) disk),
        );
      }

  renames :
      (disk : Disk)
      → Before bytes true disk
      → perform temp name rename disk ≡ some (renamed_disk false disk)
  unfolding perform renamed_disk
  renames disk h = rw h.partial refl

  settles :
      (disk : Disk)
      → perform temp name sync_parent (renamed_disk false disk) ≡ some (settled_disk disk)
  unfolding perform settled_disk
  settles disk = rw (renamed_there false disk) refl

  flushed_disk : Disk → Disk
  flushed_disk disk = put temp (some (partial_file bytes true)) disk

  flushes :
      (disk : Disk) (synced : Bool)
      → Before bytes synced disk
      → perform temp name sync disk ≡ some (flushed_disk disk)
  unfolding perform flushed_disk
  flushes disk synced h = rw h.partial refl

  flushed-Before :
      (disk : Disk) (synced : Bool)
      → Before bytes synced disk
      → Before bytes true (flushed_disk disk)
  unfolding flushed_disk
  flushed-Before disk synced h = record {
    same = λ k n. put_other k temp (some (partial_file bytes true)) disk n ∙ h.same k n;
    partial = put_self temp (some (partial_file bytes true)) disk;
  }

  finish-IsRun :
      (disk : Disk) (n : ℕ) (synced : Bool)
      → Before bytes synced disk
      → IsRun (run temp name n (sync ∷ rename ∷ open_parent ∷ sync_parent ∷ []) disk)
  unfolding perform
  finish-IsRun disk n synced h =
      let flushed = flushed_disk disk in
      let b = flushed-Before disk synced h in
      let f = renamed-IsEither false flushed b in
      let new = renamed_disk false flushed in
      step-IsRun sync (rename ∷ open_parent ∷ sync_parent ∷ []) n disk flushed (either h)
        (flushes disk synced h)
        λ a.
          step-IsRun rename (open_parent ∷ sync_parent ∷ []) a flushed new (either b)
            (renames flushed b)
            λ c. step-IsRun open_parent (sync_parent ∷ []) c new new f refl λ d.
              step-IsRun sync_parent [] d new (settled_disk flushed) f (settles flushed)
                λ e. done-IsRun flushed e b

  written-Before :
      (content piece : Bytes) (synced : Bool) (disk : Disk)
      → Before content synced disk
      → Before
          (content ++ piece)
          false
          (put temp (some (partial_file (content ++ piece) false)) disk)
  written-Before content piece synced disk h =
      let file = some (partial_file (content ++ piece) false) in
      record {
        same = λ k n. put_other k temp file disk n ∙ h.same k n;
        partial = put_self temp file disk;
      }

  writes_to :
      (content piece : Bytes) (synced : Bool) (disk : Disk)
      → Before content synced disk
      → perform temp name (write piece) disk
        ≡ some (put temp (some (partial_file (content ++ piece) false)) disk)
  unfolding perform
  writes_to content piece synced disk h = rw h.partial refl

  -- The writes that are left complete the content.
  writes-IsRun :
      (cuts : List ℕ) (content left : Bytes) (disk : Disk) (n : ℕ)
      → content ++ left ≡ bytes
      → Before content false disk
      → IsRun (
          run temp name n
            (writes cuts left ++ (sync ∷ rename ∷ open_parent ∷ sync_parent ∷ []))
            disk)
  unfolding writes
  writes-IsRun [] content left disk n e h =
      let next = put temp (some (partial_file (content ++ left) false)) disk in
      let b : Before bytes false next =
        subst (λ (t : Bytes). Before t false next) e (written-Before content left false disk h) in
      step-IsRun (write left) (sync ∷ rename ∷ open_parent ∷ sync_parent ∷ []) n disk next
        (either h) (writes_to content left false disk h) λ m. finish-IsRun next m false b
  writes-IsRun (k ∷ cuts) content left disk n e h =
      let piece : Bytes = take k left in
      let next = put temp (some (partial_file (content ++ piece) false)) disk in
      let whole : (content ++ piece) ++ drop k left ≡ bytes =
        append_assoc content piece (drop k left)
        ∙ ap (λ (t : Bytes). content ++ t) (take-append-drop k left)
        ∙ e in
      step-IsRun (write piece)
        (writes cuts (drop k left) ++ (sync ∷ rename ∷ open_parent ∷ sync_parent ∷ [])) n disk next
        (either h) (writes_to content piece false disk h)
        λ m.
          writes-IsRun cuts (content ++ piece) (drop k left) next m whole
            (written-Before content piece false disk h)

  -- One that cannot.
  blocked-IsRun :
      (op : Op) (ops : List Op) (n : ℕ) (disk : Disk)
      → IsEither temp name bytes old disk
      → perform temp name op disk ≡ none
      → IsRun (run temp name n (op ∷ ops) disk)
  unfolding run
  blocked-IsRun op ops zero disk h e = stopped-IsRun disk h
  blocked-IsRun op ops (suc n) disk h e =
      subst (λ o. IsRun (onward (run temp name n ops) disk o)) (sym e) (stopped-IsRun disk h)

  untouched : IsEither temp name bytes old old
  untouched = record { file = inl refl; others = λ k a b. refl }

  creates :
      old temp ≡ none
      → perform temp name create old ≡ some (put temp (some (partial_file [] false)) old)
  unfolding perform
  creates e = rw e refl

  create_fails : (content : File) → old temp ≡ some content → perform temp name create old ≡ none
  unfolding perform
  create_fails content e = rw e refl

  pub operations-IsRun :
      (cuts : List ℕ) (n : ℕ) → IsRun (run temp name n (operations cuts bytes) old)
  unfolding operations
  operations-IsRun cuts n =
      let rest = writes cuts bytes ++ (sync ∷ rename ∷ open_parent ∷ sync_parent ∷ []) in
      let next = put temp (some (partial_file [] false)) old in
      let b : Before [] false next = record {
        same = λ k m. put_other k temp (some (partial_file [] false)) old m;
        partial = put_self temp (some (partial_file [] false)) old;
      } in
      elim (Option-cases (old temp)) [
        | inl e ↦
            step-IsRun create rest n old next untouched (creates e)
              λ m. writes-IsRun cuts [] bytes next m refl b
        | inr (content, e) ↦ blocked-IsRun create rest n old untouched (create_fails content e)
      ]
