-- ===== src/Snapshot/History.antt =====
-- website/src/features/snapshot/snapshotHistory.ts, with `captureSnapshotBaseline` of
-- compareSnapshots.ts. The clock is an argument, and `historySequence` a state that is passed on.
pub mod Kept
pub mod Added
use kuviewer.Base.{
  ℕ, suc, ◌+◌, Bool, true, false, not, ◌&&◌, Option, none, some, List, [], ◌∷◌, ◌++◌, map, leb,
  if◌then◌else◌, Text, lit, text_eq, truthy, or_text, trim, has, filter, length, take,
}
use kuviewer.Base.Decimal.{base36}
use kuviewer.Base.Sets.{add}
use kuviewer.Topology.Types.{TopologySnapshot}

abbrev pub max_snapshot_history : ℕ
max_snapshot_history = 8

pub data Origin : Type 0 where
  capture import : Origin

pub record Baseline : Type 0 where
  pub snapshot : TopologySnapshot
  pub captured_at : ℕ
  pub label : Text

pub record HistoryEntry : Type 0 where
  pub snapshot : TopologySnapshot
  pub captured_at : ℕ
  pub label : Text
  pub id : Text
  pub origin : Origin

-- `cloneTopologySnapshot`: values are shared here, so only what it leaves out shows.
abbrev pub clone_topology_snapshot : TopologySnapshot → TopologySnapshot
clone_topology_snapshot s = record s { diagnostics = none }

abbrev pub clean_label : Text → Text
clean_label label = take 80 (trim label)

unfoldable pub capture_snapshot_baseline : ℕ → TopologySnapshot → Text → Baseline
capture_snapshot_baseline now snapshot label = record {
  snapshot = clone_topology_snapshot snapshot;
  captured_at = now;
  label = or_text (clean_label label) (lit "snapshot");
}

-- The new entry beside the sequence number after it.
unfoldable pub create_entry : ℕ → ℕ → TopologySnapshot → Text → Origin → HistoryEntry × ℕ
unfolding capture_snapshot_baseline
create_entry now sequence snapshot label origin =
    let baseline = capture_snapshot_baseline now snapshot label in
    let sequence' = sequence + 1 in
    (
      record {
        snapshot = baseline.snapshot;
        captured_at = baseline.captured_at;
        label = baseline.label;
        id = base36 baseline.captured_at ++ (b'-' ∷ base36 sequence');
        origin = origin;
      },
      sequence',
    )

abbrev pub entry_ids : List HistoryEntry → List Text
entry_ids es = map (λ (e : HistoryEntry). e.id) es

-- The new entry in front of the history without an entry of its id.
abbrev pub with_entry : List HistoryEntry → HistoryEntry → List HistoryEntry
with_entry history entry = entry ∷ filter (λ c. not (text_eq c.id entry.id)) history

-- The first loop: the ids that are protected.
unfoldable pub keep_protected : List Text → List Text → List Text → List Text
keep_protected protected keep [] = keep
keep_protected protected keep (k ∷ ks) =
    keep_protected protected (if has k protected then add k keep else keep) ks

-- The second loop: the newest ids, until there are enough.
unfoldable pub keep_newest : List Text → List Text → List Text
keep_newest keep [] = keep
keep_newest keep (k ∷ ks) =
    let rest = keep_newest (add k keep) ks in
    if leb max_snapshot_history (length keep) then keep else rest

unfoldable pub keep_ids : List Text → List Text → List Text
unfolding keep_protected keep_newest
keep_ids protected ids = keep_newest (keep_protected (filter truthy protected) [] ids) ids

unfoldable pub add_entry : List HistoryEntry → HistoryEntry → List Text → List HistoryEntry
add_entry history entry protected =
    let next = with_entry history entry in
    if leb (length next) max_snapshot_history
    then next
    else filter (λ c. has c.id (keep_ids protected (entry_ids next))) next

unfoldable pub rename_entry : List HistoryEntry → Text → Text → List HistoryEntry
rename_entry history id label =
    if truthy (clean_label label)
    then map
        (λ (e : HistoryEntry).
          if text_eq e.id id then record e { label = clean_label label } else e)
        history
    else history

unfoldable pub delete_entry : List HistoryEntry → Text → List HistoryEntry
delete_entry history id = filter (λ e. not (text_eq e.id id)) history
