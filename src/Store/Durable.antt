-- ===== src/Store/Durable.antt =====
-- Proofs about `persist`, `save` and `perform`: what the session file holds behind a method.
use sbnn.Diff.Parser.{step}
use sbnn.Prelude.{
  >>=-eq-some, Bool, Bool-cases, List, Option, [], arith, false, if◌then◌else◌, inl, inr, none, not,
  refl, some, true, ℕ, ◌++◌, ◌||◌, ◌∷◌, ◌≡◌,
}
use sbnn.Session.{Session}
use sbnn.Session.Log.{LogRecord, apply, replay}
use sbnn.Session.Saves.{Edit, Logged, stamp}
use sbnn.Store.{
  AppendOutcome, Io, SessionFile, Store, append_record, appended, needs_snapshot, new_store,
  perform, persist, persist_all, recover, save, torn, unsynced, with_record, write_snapshot,
}

-- Reading the file back gives the session in memory.
abbrev pub IsSynced : Store → Type 0
IsSynced st = recover st.disk ≡ some st.session

-- What holds between two methods: the file is up to date where the next change would be appended
-- to it, and where no error is reported.
pub record IsTracked (st : Store) : Type 0 where
  pub persists : (st.has_path ≡ true) × (st.sealed ≡ false)
  pub appendable : needs_snapshot st ≡ false → IsSynced st
  pub reported : st.persist_error ≡ false → IsSynced st

replay-concat :
    (recs : List LogRecord) (rec : LogRecord) (s : Session) {t u : Session}
    → replay recs s ≡ some t
    → apply rec t ≡ some u
    → replay (recs ++ rec ∷ []) s ≡ some u
unfolding replay
replay-concat [] rec s h k = ground arith
replay-concat (r ∷ recs) rec s h k =
    let (v, first, later) = >>=-eq-some (apply r s) (λ v. replay recs v) h in
    rw first (replay-concat recs rec v later k)

-- A store behind a write, the error of which is reported, is tracked.
abbrev IsSettled : Bool × Store → Type 0
IsSettled r = IsTracked (record r.1 { persist_error = not r.0 })

abbrev IsPersistent : Store → Type 0
IsPersistent st = (st.has_path ≡ true) × (st.sealed ≡ false)

write_snapshot-IsSettled :
    (n : Option ℕ) (st : Store)
    → IsPersistent st
    → needs_snapshot st ≡ true
    → IsSettled (write_snapshot n st)
unfolding write_snapshot needs_snapshot recover replay
write_snapshot-IsSettled none st p needs = record {
  persists = p;
  appendable = λ h. ground arith;
  reported = λ h. ground arith;
}
write_snapshot-IsSettled (some n) st p needs = record {
  persists = p;
  appendable = λ h. refl;
  reported = λ h. refl;
}

-- The branch of `save` that appends, and writes a snapshot where that fails.
append-IsSettled :
    (a : AppendOutcome) (n : Option ℕ) (rec : LogRecord) (st : Store) (d : Option SessionFile)
    {old : Session}
    → IsPersistent st
    → recover d ≡ some old
    → apply (stamp st.session rec) old ≡ some st.session
    → IsSettled (
        if (append_record a rec d st).0
        then (true, (append_record a rec d st).1)
        else write_snapshot n (record (append_record a rec d st).1 { dirty = true }))
unfolding append_record recover
append-IsSettled a n rec st none p h step =
    write_snapshot-IsSettled n (record st { dirty = true }) p (unfold needs_snapshot in refl)
append-IsSettled (appended k) n rec st (some f) p h step = record {
  persists = p;
  appendable = λ _. replay-concat f.records (stamp st.session rec) f.snap h step;
  reported = λ _. replay-concat f.records (stamp st.session rec) f.snap h step;
}
append-IsSettled torn n rec st (some f) p h step =
    write_snapshot-IsSettled n (record st { dirty = true }) p (unfold needs_snapshot in refl)
append-IsSettled unsynced n rec st (some f) p h step =
    write_snapshot-IsSettled n
      (record st { dirty = true; disk = some (with_record (stamp st.session rec) f) }) p
      (unfold needs_snapshot in refl)

save-IsSettled :
    (io : Io) (rec : LogRecord) (st : Store) {old : Session}
    → IsPersistent st
    → (needs_snapshot st ≡ false → recover st.disk ≡ some old)
    → apply (stamp st.session rec) old ≡ some st.session
    → IsSettled (save io rec st)
unfolding save
save-IsSettled io rec st p synced step = elim (Bool-cases (needs_snapshot st)) [
  | inl needs ↦ rw needs (write_snapshot-IsSettled io.write st p needs)
  | inr fits ↦ rw fits (append-IsSettled io.append io.write rec st st.disk p (synced fits) step)
]

pub persist-active :
    (io : Io) (rec : LogRecord) (st : Store)
    → IsPersistent st
    → persist io rec st ≡ record (save io rec st).1 { persist_error = not (save io rec st).0 }
unfolding persist
persist-active io rec st p =
    let active : (not st.has_path || st.sealed) ≡ false = ground arith in rw active

-- A call of `persist` on a session that its record leads to.
pub persist-IsTracked :
    (io : Io) (rec : LogRecord) (s : Session) (st : Store)
    → IsTracked st
    → apply (stamp s rec) st.session ≡ some s
    → IsTracked (persist io rec (record st { session = s }))
persist-IsTracked io rec s st t leads =
    let synced : needs_snapshot (record st { session = s }) ≡ false
        → recover st.disk ≡ some st.session =
      unfold needs_snapshot in t.appendable in
    rw (persist-active io rec (record st { session = s }) t.persists)
      (save-IsSettled io rec (record st { session = s }) t.persists synced leads)

write_snapshot-session : (n : Option ℕ) (st : Store) → (write_snapshot n st).1.session ≡ st.session
unfolding write_snapshot
write_snapshot-session none st = refl
write_snapshot-session (some n) st = refl

append_record-session :
    (a : AppendOutcome) (rec : LogRecord) (d : Option SessionFile) (st : Store)
    → (append_record a rec d st).1.session ≡ st.session
unfolding append_record
append_record-session a rec none st = refl
append_record-session (appended n) rec (some f) st = refl
append_record-session torn rec (some f) st = refl
append_record-session unsynced rec (some f) st = refl

save-session : (io : Io) (rec : LogRecord) (st : Store) → (save io rec st).1.session ≡ st.session
unfolding save
save-session io rec st = ground (
  arith,
  append_record-session io.append rec st.disk st,
  write_snapshot-session io.write st,
  write_snapshot-session io.write
      (record (append_record io.append rec st.disk st).1 { dirty = true }),
)

pub persist-session :
    (io : Io) (rec : LogRecord) (st : Store) → (persist io rec st).session ≡ st.session
unfolding persist
persist-session io rec st = ground (arith, save-session io rec st)

persist_all-IsTracked :
    (ios : List Io) (saves : List (Session × LogRecord)) (st : Store) {t : Session}
    → IsTracked st
    → Logged st.session saves t
    → IsTracked (persist_all ios saves st) × ((persist_all ios saves st).session ≡ t)
unfolding persist_all
persist_all-IsTracked ios [] st k h = (k, h)
persist_all-IsTracked [] ((u, rec) ∷ saves) st {t} k h =
    let io : Io = record { append = torn; write = none } in
    let st' = persist io rec (record st { session = u }) in
    persist_all-IsTracked [] saves st' (persist-IsTracked io rec u st k h.0)
      (rw (persist-session io rec (record st { session = u })) h.1)
persist_all-IsTracked (io ∷ ios) ((u, rec) ∷ saves) st {t} k h =
    let st' = persist io rec (record st { session = u }) in
    persist_all-IsTracked ios saves st' (persist-IsTracked io rec u st k h.0)
      (rw (persist-session io rec (record st { session = u })) h.1)

-- For an unsealed store that has a path, and whose file recovers to its session where the next change
-- would be appended to it and where `PersistError` is nil: whatever the disk answers to each write, a
-- method whose records replay from session to session leaves the store so.
pub perform-IsTracked {ℓ} :
    {A : Type ℓ} (ios : List Io) (method : Session → Edit A) (st : Store)
    → IsTracked st
    → Logged st.session (method st.session).saves (method st.session).session
    → IsTracked (perform ios method st).1
unfolding perform
perform-IsTracked ios method st k h =
    let (tracked, same) = persist_all-IsTracked ios (method st.session).saves st k h in
    rw (← same) tracked

pub new_store-IsTracked : IsTracked (new_store true)
unfolding recover needs_snapshot
new_store-IsTracked = record {
  persists = (refl, refl);
  appendable = λ h. refl;
  reported = λ h. refl;
}
