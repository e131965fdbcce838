-- ===== src/Store.antt =====
-- internal/server/store.go and store_log.go: a `Store`, which holds a session in memory and keeps it
-- on disk as a snapshot and a log. The disk is a field of the model, and what it answers to each
-- write is an argument.
pub mod Durable
pub mod History
pub mod Loads
use sbnn.Prelude.{
  Bool, Bytes, List, Option, [], false, if◌then◌else◌, is_some, keep, length, ltb, none, not, some,
  suc, true, ℕ, ◌&&◌, ◌++◌, ◌+◌, ◌==◌, ◌>>=◌, ◌^◌, ◌||◌, ◌∷◌,
}
use sbnn.Review.{Group}
use sbnn.Session.{Counters, Session, forget}
use sbnn.Session.Log.{LogRecord, replay}
use sbnn.Session.Saves.{Edit, stamp}
use sbnn.Session.Titles.{validate_group_name}
use sbnn.Text.{eq_bytes, is_empty}

-- What the session file holds, behind its encoding as JSON: the snapshot with its repository, and the
-- log.
pub record SessionFile : Type 0 where
  pub snap : Session
  pub records : List LogRecord
  pub repository_kept : Option Bytes

pub record Store : Type 0 where
  pub session : Session
  pub has_path : Bool
  pub repository : Option Bytes
  pub persist_error : Bool
  pub sealed : Bool
  pub snap_bytes : ℕ
  pub log_bytes : ℕ
  pub dirty : Bool
  pub compact_min : ℕ
  pub disk : Option SessionFile

abbrev pub empty_session : Session
empty_session = record { groups = []; seq = []; rounds = [] }

-- 1 << 20
abbrev pub default_compact_min : ℕ
default_compact_min = 2 ^ 20

-- `NewStore`
abbrev pub new_store : Bool → Store
new_store has_path = record {
  session = empty_session;
  has_path = has_path;
  repository = none;
  persist_error = false;
  sealed = false;
  snap_bytes = 0;
  log_bytes = 0;
  dirty = false;
  compact_min = default_compact_min;
  disk = none;
}

-- What became of an append: it is on disk with this many bytes; or it failed, and the file holds
-- nothing new that can be read (`torn`), or all of the record (`unsynced`).
pub data AppendOutcome : Type 0 where
  appended : ℕ → AppendOutcome
  torn unsynced : AppendOutcome

-- The answers of the disk to one call of `persist`: to an append, and to a whole snapshot, whose
-- bytes in front of the last newline are counted unless it fails.
pub record Io : Type 0 where
  pub append : AppendOutcome
  pub write : Option ℕ

abbrev pub with_record : LogRecord → SessionFile → SessionFile
with_record rec f = record f { records = f.records ++ rec ∷ [] }

-- `write`: did it succeed, and the store behind it.
unfoldable pub write_snapshot : Option ℕ → Store → Bool × Store
write_snapshot none st = (false, st)
write_snapshot (some n) st = (
  true,
  record st {
    snap_bytes = suc n;
    log_bytes = 0;
    dirty = false;
    disk = some (record { snap = st.session; records = []; repository_kept = st.repository });
  },
)

-- `appendRecord`; a file that is gone cannot be opened.
unfoldable pub append_record : AppendOutcome → LogRecord → Option SessionFile → Store → Bool × Store
append_record outcome rec none st = (false, st)
append_record (appended n) rec (some f) st = (
  true,
  record st { log_bytes = st.log_bytes + n; disk = some (with_record (stamp st.session rec) f) },
)
append_record torn rec (some f) st = (false, st)
append_record unsynced rec (some f) st =
    (false, record st { disk = some (with_record (stamp st.session rec) f) })

abbrev pub larger : ℕ → ℕ → ℕ
larger a b = if ltb a b then b else a

-- The file cannot be appended to, or the log has outgrown the snapshot.
unfoldable pub needs_snapshot : Store → Bool
needs_snapshot st =
    st.dirty || st.snap_bytes == 0 || ltb (larger st.snap_bytes st.compact_min) st.log_bytes

-- `save`
unfoldable pub save : Io → LogRecord → Store → Bool × Store
unfolding write_snapshot append_record needs_snapshot
save io rec st =
    let (done, st') = append_record io.append rec st.disk st in
    if needs_snapshot st
    then write_snapshot io.write st
    else if done
    then (true, st')
    else write_snapshot io.write (record st' { dirty = true })

-- `persist`
unfoldable pub persist : Io → LogRecord → Store → Store
unfolding save
persist io rec st =
    let (done, st') = save io rec st in
    if not st.has_path || st.sealed then st else record st' { persist_error = not done }

-- The calls of `persist` that a method makes, each with the session as it stands then.
unfoldable pub persist_all : List Io → List (Session × LogRecord) → Store → Store
unfolding persist
persist_all ios [] st = st
persist_all [] ((s, rec) ∷ saves) st =
    persist_all [] saves
      (persist (record { append = torn; write = none }) rec (record st { session = s }))
persist_all (io ∷ ios) ((s, rec) ∷ saves) st =
    persist_all ios saves (persist io rec (record st { session = s }))

-- A method of the store.
unfoldable pub perform {ℓ} : {A : Type ℓ} → List Io → (Session → Edit A) → Store → A × Store
unfolding persist_all
perform ios method st =
    let e = method st.session in
    (e.answer, record (persist_all ios e.saves st) { session = e.session })

-- The loop of `Load` alone: the log is replayed over the snapshot, and a file that is not there is an
-- empty session.
unfoldable pub recover : Option SessionFile → Option Session
unfolding replay
recover none = some empty_session
recover (some f) = replay f.records f.snap

-- What `Load` sets of a store: the session, the repository, and whether it dropped groups, which makes
-- the store dirty.
pub record Loaded : Type 0 where
  pub loaded_session : Session
  pub loaded_repository : Option Bytes
  pub dropped_some : Bool

-- The test of `validGroups`.
unfoldable pub is_valid_group : Group → Bool
unfolding validate_group_name
is_valid_group g = not (is_empty g.name) && is_some (validate_group_name g.name)

unfoldable pub valid_groups : List Group → List Group
unfolding is_valid_group
valid_groups = keep is_valid_group

-- The rounds of the groups that are dropped are forgotten.
unfoldable pub forget_invalid : List Group → Counters → Counters
unfolding is_valid_group forget
forget_invalid [] m = m
forget_invalid (g ∷ gs) m = forget_invalid gs (if is_valid_group g then m else forget g.name m)

-- `Load` of a file of this version that holds both maps of counters and no null for a group. The answer
-- is `none` where a record cannot be replayed, so that the file is set aside.
unfoldable pub load : Option SessionFile → Option Loaded
unfolding recover valid_groups forget_invalid
load none =
    some (record { loaded_session = empty_session; loaded_repository = none; dropped_some = false })
load (some f) = do
  s ← recover (some f)
  some (record {
    loaded_session = record s {
      groups = valid_groups s.groups;
      rounds = forget_invalid s.groups s.rounds;
    };
    loaded_repository = f.repository_kept;
    dropped_some = not (length (valid_groups s.groups) == length s.groups);
  })

pub data BindResult : Type 0 where
  bound foreign_session : BindResult

-- `BindRepository`
unfoldable pub bind_repository : Option Bytes → Store → BindResult × Store
unfolding eq_bytes
bind_repository none st = (bound, st)
bind_repository (some repo) st = elim st.repository [
  | some mine ↦ (if eq_bytes mine repo then bound else foreign_session, st)
  | none ↦ (bound, record st { repository = some repo; dirty = true })
]
