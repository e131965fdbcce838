-- ===== src/Store/Loads.antt =====
-- Proofs about `Load`: the repository on disk, and a file whose groups have names that are accepted.
use sbnn.Prelude.{
  All, Bool-cases, Bytes, List, Option, Option-cases, [], ap, arith, false, inl, inr, length, none,
  not, refl, some, sym, true, ℕ, ◌==◌, ◌||◌, ◌∙◌, ◌∷◌, ◌≡◌, ◌⊎◌,
}
use sbnn.Review.{Group}
use sbnn.Session.{Counters, Session}
use sbnn.Session.Log.{LogRecord}
use sbnn.Session.Saves.{Edit}
use sbnn.Store.{
  AppendOutcome, Io, SessionFile, Store, append_record, appended, bind_repository, forget_invalid,
  is_valid_group, load, needs_snapshot, perform, persist, persist_all, recover, save, torn,
  unsynced, valid_groups, write_snapshot,
}
use mathlib.Core.Option.{some-injective}

-- The repository that the file names.
abbrev pub repository_on : Option SessionFile → Option Bytes
repository_on none = none
repository_on (some f) = f.repository_kept

-- The file names the repository, or none as long as a whole snapshot is still to be written.
pub record KeepsRepository (st : Store) : Type 0 where
  pub named_or_none : (repository_on st.disk ≡ none) ⊎ (repository_on st.disk ≡ st.repository)
  pub named : st.dirty ≡ false → repository_on st.disk ≡ st.repository

write_snapshot-KeepsRepository :
    (n : Option ℕ) (st : Store) → KeepsRepository st → KeepsRepository (write_snapshot n st).1
unfolding write_snapshot
write_snapshot-KeepsRepository none st k = k
write_snapshot-KeepsRepository (some n) st k = record {
  named_or_none = inr refl;
  named = λ _. refl;
}

append_record-KeepsRepository :
    (a : AppendOutcome) (rec : LogRecord) (st : Store)
    → (d : Option SessionFile) → st.disk ≡ d
    → KeepsRepository st
    → KeepsRepository (append_record a rec d st).1
unfolding append_record
append_record-KeepsRepository a rec st none e k = k
append_record-KeepsRepository torn rec st (some f) e k = k
append_record-KeepsRepository (appended n) rec st (some f) e k =
    let same : repository_on st.disk ≡ f.repository_kept = ap repository_on e in
    record { named_or_none = (rw same at k.named_or_none); named = λ h. sym same ∙ k.named h }
append_record-KeepsRepository unsynced rec st (some f) e k =
    let same : repository_on st.disk ≡ f.repository_kept = ap repository_on e in
    record { named_or_none = (rw same at k.named_or_none); named = λ h. sym same ∙ k.named h }

dirty-KeepsRepository :
    (st : Store) → KeepsRepository st → KeepsRepository (record st { dirty = true })
dirty-KeepsRepository st k = record { named_or_none = k.named_or_none; named = λ h. cc }

save-KeepsRepository :
    (io : Io) (rec : LogRecord) (st : Store)
    → KeepsRepository st
    → KeepsRepository (save io rec st).1
unfolding save
save-KeepsRepository io rec st k =
    let kept = append_record-KeepsRepository io.append rec st st.disk refl k in
    elim (Bool-cases (needs_snapshot st)) [
      | inl needs ↦ rw needs (write_snapshot-KeepsRepository io.write st k)
      | inr fits ↦ elim (Bool-cases (append_record io.append rec st.disk st).0) [
        | inl done ↦ rw (fits, done) kept
        | inr failed ↦
            rw (fits, failed)
              (write_snapshot-KeepsRepository io.write
                (record (append_record io.append rec st.disk st).1 { dirty = true })
                (dirty-KeepsRepository (append_record io.append rec st.disk st).1 kept))
      ]
    ]

with_session-KeepsRepository :
    (s : Session) (st : Store) → KeepsRepository st → KeepsRepository (record st { session = s })
with_session-KeepsRepository s st k = record { named_or_none = k.named_or_none; named = k.named }

persist-KeepsRepository :
    (io : Io) (rec : LogRecord) (st : Store)
    → KeepsRepository st
    → KeepsRepository (persist io rec st)
unfolding persist
persist-KeepsRepository io rec st k =
    let kept = save-KeepsRepository io rec st k in
    elim (Bool-cases (not st.has_path || st.sealed)) [
      | inl idle ↦ rw idle k
      | inr active ↦ rw active (record { named_or_none = kept.named_or_none; named = kept.named })
    ]

persist_all-KeepsRepository :
    (ios : List Io) (saves : List (Session × LogRecord)) (st : Store)
    → KeepsRepository st
    → KeepsRepository (persist_all ios saves st)
unfolding persist_all
persist_all-KeepsRepository ios [] st k = k
persist_all-KeepsRepository [] ((s, rec) ∷ saves) st k =
    let io : Io = record { append = torn; write = none } in
    persist_all-KeepsRepository [] saves _
      (persist-KeepsRepository io rec _ (with_session-KeepsRepository s st k))
persist_all-KeepsRepository (io ∷ ios) ((s, rec) ∷ saves) st k =
    persist_all-KeepsRepository ios saves _
      (persist-KeepsRepository io rec _ (with_session-KeepsRepository s st k))

pub perform-KeepsRepository {ℓ} :
    {A : Type ℓ} (ios : List Io) (method : Session → Edit A) (st : Store)
    → KeepsRepository st
    → KeepsRepository (perform ios method st).1
unfolding perform
perform-KeepsRepository ios method st k =
    with_session-KeepsRepository (method st.session).session _
      (persist_all-KeepsRepository ios (method st.session).saves st k)

pub bind_repository-KeepsRepository :
    (repo : Option Bytes) (st : Store)
    → KeepsRepository st
    → KeepsRepository (bind_repository repo st).1
unfolding bind_repository
bind_repository-KeepsRepository none st k = k
bind_repository-KeepsRepository (some repo) st k = elim (Option-cases st.repository) [
  | inr (other, taken) ↦ rw (taken, bind_repository) k
  | inl untaken ↦
      rw (untaken, bind_repository)
        (record {
          named_or_none = inl (elim k.named_or_none [ inl h ↦ h | inr h ↦ h ∙ untaken ]);
          named = λ h. cc;
        })
]

-- `ValidateGroupName` accepts the name of every group.
abbrev pub AreValid : List Group → Type 0
AreValid = All (λ (g : Group). is_valid_group g ≡ true)

AreValid-valid_groups : (gs : List Group) → AreValid gs → valid_groups gs ≡ gs
unfolding valid_groups
AreValid-valid_groups [] h = refl
AreValid-valid_groups (g ∷ gs) h =
    rw h.0 (ap (λ (xs : List Group). g ∷ xs) (AreValid-valid_groups gs h.1))

AreValid-forget_invalid : (gs : List Group) (m : Counters) → AreValid gs → forget_invalid gs m ≡ m
unfolding forget_invalid
AreValid-forget_invalid [] m h = refl
AreValid-forget_invalid (g ∷ gs) m h = rw h.0 (AreValid-forget_invalid gs m h.1)

pub load-recover :
    (d : Option SessionFile) (s : Session)
    → recover d ≡ some s
    → AreValid s.groups
    → load d
      ≡ some
          (record { loaded_session = s; loaded_repository = repository_on d; dropped_some = false })
unfolding load recover
load-recover none s h valid =
    ap
      (λ (t : Session).
        some (record { loaded_session = t; loaded_repository = none; dropped_some = false }))
      (some-injective _ _ h)
load-recover (some f) s h valid =
    let same : (length s.groups == length s.groups) ≡ true = ground arith in
    rw
      (
        h,
        AreValid-valid_groups s.groups valid,
        AreValid-forget_invalid s.groups s.rounds valid,
        same,
      )
      refl
