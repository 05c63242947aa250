-- ===== src/Runtime/Persist/PowerLoss.antt =====
-- What a loss of power leaves of the file operations of src/runtime.rs.
use mathlib.Core.Path.{subst}
use mathlib.Core.List.{Memᴰ}
use mathlib.Core.List.Memᴰ.{head, tail}
use macmapd.Base.{
  ◌≡◌, ◌⊎◌, inl, inr, refl, sym, ap, ◌∙◌, true, false, Option, none, some, List, [], ◌∷◌, Bytes,
  All, Option-cases, ok,
}
use macmapd.Runtime.Persist.{File, Disk, contents, temp_name, Persisted, System, persist_blocking}
use macmapd.Runtime.Persist.Steps.{IsEither}
use macmapd.Runtime.Persist.Atomic.{IsSaved, persist_blocking-IsSaved}

-- A file that is on the medium as it is, or is not there.
pub record IsStable (o : Option File) : Type 0 where
  pub on_medium : (f : File) → o ≡ some f → (f.synced ≡ true) × (f.linked ≡ true)

-- The disks that a loss of power can leave of `disk`, where `old` was on the medium: a file that was
-- synced keeps its bytes, but its name may be what it was before, until the directory is synced too.
-- Nothing is promised of a file that was not synced.
pub record AfterPowerLoss (old disk later : Disk) : Type 0 where
  pub kept :
      (k : Bytes) (f : File)
      → disk k ≡ some f
      → f.synced ≡ true
      → (later k ≡ some f) ⊎ ((f.linked ≡ false) × (later k ≡ old k))
  pub absent : (k : Bytes) → disk k ≡ none → old k ≡ none → later k ≡ none

-- A call with a loss of power on the way, or after it.
pub record IsDurable (name bytes : Bytes) (old : Disk) (p : Persisted) : Type 0 where
  pub on_the_way :
      (disk later : Disk)
      → Memᴰ disk p.seen
      → AfterPowerLoss old disk later
      → (later name ≡ old name) ⊎ (contents (later name) ≡ some bytes)
  pub saved :
      (later : Disk)
      → p.result ≡ ok tt
      → AfterPowerLoss old p.disk later
      → contents (later name) ≡ some bytes

All-at :
    (P : Disk → Type 0) (disks : List Disk) (disk : Disk) → All P disks → Memᴰ disk disks → P disk
All-at P [] disk h m = elim m [ ]
All-at P (d ∷ disks) disk h (head e) = subst P (sym e) h.0
All-at P (d ∷ disks) disk h (tail m) = All-at P disks disk h.1 m

module _ (temp name bytes : Bytes) (old : Disk) where
  either_stays :
      (disk later : Disk)
      → IsStable (old name)
      → IsEither temp name bytes old disk
      → AfterPowerLoss old disk later
      → (later name ≡ old name) ⊎ (contents (later name) ≡ some bytes)
  either_stays disk later s h a = elim h.file [
    | inl e ↦ elim (Option-cases (old name)) [
      | inl missing ↦ inl (a.absent name (e ∙ missing) missing ∙ sym missing)
      | inr (f, is) ↦ elim (a.kept name f (e ∙ is) (s.on_medium f is).0) [
        | inl l ↦ inl (l ∙ sym is)
        | inr (unlinked, l) ↦ inl l
      ]
    ]
    | inr (linked, e) ↦ elim (a.kept name _ e refl) [
      | inl l ↦ inr (ap contents l)
      | inr (unlinked, l) ↦ inl l
    ]
  ]

-- Whatever operation fails, and wherever the write is cut: at every moment of a call the state file
-- holds its old content or all of the new one, and no other file is touched but the temporary one; a
-- call that succeeds has saved the new content; and a call leaves no temporary file, unless it cannot
-- be removed. And if the power is lost at any moment, where bytes that were not synced and names in
-- a directory that was not synced can be lost, the state file holds its old content or all of the new
-- one; and the new one for certain behind a call that succeeded. The directory is there, and the old
-- state file is on the medium.
pub persist_blocking-IsDurable :
    (system : System) (name bytes : Bytes) (old : Disk)
    → system.directory ≡ true
    → IsStable (old name)
    → let temp = temp_name name system.pid system.sequence in
      let p = persist_blocking system (some name) bytes old in
      IsSaved temp name bytes old system.removable p × IsDurable name bytes old p
persist_blocking-IsDurable system name bytes old h s =
    let temp = temp_name name system.pid system.sequence in
    let saved = persist_blocking-IsSaved system name bytes old h in
    (
      saved,
      record {
        on_the_way = λ disk later m a.
            either_stays temp name bytes old disk later s
              (All-at (IsEither temp name bytes old) _ disk saved.on_the_way m) a;
        saved = λ later done a. elim (a.kept name _ (saved.saved done) refl) [
          | inl l ↦ ap contents l
          | inr (unlinked, l) ↦ absurd cc
        ];
      },
    )
