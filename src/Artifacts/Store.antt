-- ===== src/Artifacts/Store.antt =====
-- apps/artifact-service/src/infrastructure: the tables, the unit of work and the repositories of
-- artifacts, provenance and lineage edges (db/unit_of_work.py, db/repositories.py, db/mapping.py), and the
-- outbox writer. The unique indexes are those of the migrations.
use keviq_core.Prelude.{
  ℕ, ◌==◌, Bool, false, not, ◌&&◌, ◌||◌, String, Option, none, some, List, [], ◌∷◌, ◌++◌, map,
  if◌then◌else◌, where_test,
}
use keviq_core.Prelude.Tables
use keviq_core.Errors.{Result, ok, err, integrity_error}
use keviq_core.Transaction
unfoldable pub use keviq_core.Transaction.{
  continue, ◌>>=◌, ◌>>◌, now, uuid4, commit, ask, pure, raise, lift, close, with_uow,
}
use keviq_core.Artifacts.Artifact.{Artifact, Metadata, mapping, dumped, validate}
use keviq_core.Artifacts.Provenance.{Provenance}
use keviq_core.Artifacts.Provenance
use keviq_core.Artifacts.Edge.{Edge, edge_type_eq}
use keviq_core.Artifacts.Lineage.{EdgePair}
use keviq_core.Artifacts.Events.{OutboxEvent, Draft}

pub record Db : Type 0 where
  pub artifacts : List Artifact
  pub provenance : List Provenance
  pub edges : List Edge
  pub outbox : List OutboxEvent

-- `storage_backend.write_content(…)`
pub data StorageCall : Type 0 where
  written : (storage_key : String) (content : List ℕ) → StorageCall

abbrev pub Session : Type 0
Session = Transaction.Session Db StorageCall

-- Code that may raise; what it did to the session before stays done.
abbrev pub Tx : Type 0 → Type 0
Tx A = Session → Result A × Session

-- `artifact_domain_to_row`: the metadata goes into its column as the text that `json.dumps` makes of it,
-- and a text goes in as it is.
abbrev pub dump : Metadata → Metadata
dump (mapping d) = dumped d
dump (dumped d) = dumped d

unfoldable pub to_row : Artifact → Artifact
to_row a = record a { metadata = dump a.metadata }

-- Some other row has that value in a column with a unique index; rows without a value never clash.
same_value : Option ℕ → Option ℕ → Bool
same_value (some x) (some y) = x == y
same_value _ _ = false

unfoldable pub invocation_taken : Artifact → List Artifact → Bool
unfolding same_value
invocation_taken a [] = false
invocation_taken a (b ∷ rows) =
    not (b.id == a.id) && same_value b.agent_invocation_id a.agent_invocation_id
    || invocation_taken a rows

-- SqlArtifactRepository
unfoldable pub save_artifact : Artifact → Tx (Unit {0})
unfolding invocation_taken to_row
save_artifact a s = if invocation_taken a s.db.artifacts then (err integrity_error, s) else (
  ok tt,
  record s { db = record s.db { artifacts = Tables.save (λ r. r.id) (to_row a) s.db.artifacts } },
)

-- What a constructor makes of a row that was found.
abbrev pub load : {A : Type 0} → (A → Result A) → Option A → Result (Option A)
load make none = ok none
load make (some a) = elim (make a) [ ok a' ↦ ok (some a') | err e ↦ err e ]

unfoldable pub get_artifact : ℕ → Tx (Option Artifact)
unfolding validate
get_artifact id s = (load validate (Tables.find (λ r. r.id) id s.db.artifacts), s)

-- SqlProvenanceRepository
unfoldable pub provenance_taken : Provenance → List Provenance → Bool
provenance_taken p [] = false
provenance_taken p (q ∷ rows) =
    not (q.id == p.id) && (q.artifact_id == p.artifact_id) || provenance_taken p rows

unfoldable pub save_provenance : Provenance → Tx (Unit {0})
unfolding provenance_taken
save_provenance p s = if provenance_taken p s.db.provenance then (err integrity_error, s) else (
  ok tt,
  record s { db = record s.db { provenance = Tables.save (λ r. r.id) p s.db.provenance } },
)

unfoldable pub get_provenance : (artifact_id : ℕ) → Tx (Option Provenance)
unfolding Provenance.post_init
get_provenance artifact_id s =
    (load Provenance.post_init (Tables.find (λ r. r.artifact_id) artifact_id s.db.provenance), s)

-- SqlLineageEdgeRepository
unfoldable pub edge_taken : Edge → List Edge → Bool
edge_taken e [] = false
edge_taken e (f ∷ rows) =
    (f.id == e.id)
    || (f.child_artifact_id == e.child_artifact_id)
      && (f.parent_artifact_id == e.parent_artifact_id)
      && edge_type_eq f.edge_type e.edge_type
    || edge_taken e rows

unfoldable pub save_edge : Edge → Tx (Unit {0})
unfolding edge_taken
save_edge e s =
    if edge_taken e s.db.edges
    then (err integrity_error, s)
    else (ok tt, record s { db = record s.db { edges = s.db.edges ++ e ∷ [] } })

-- The workspace of the artifact with that identifier is the given one.
unfoldable pub lies_in : List Artifact → (workspace_id id : ℕ) → Bool
lies_in [] workspace_id id = false
lies_in (a ∷ rows) workspace_id id =
    if a.id == id then a.workspace_id == workspace_id else lies_in rows workspace_id id

abbrev pub pair : Edge → EdgePair
pair e = (e.child_artifact_id, e.parent_artifact_id)

-- The edges whose child lies in the workspace, as pairs.
abbrev pub edges_in : (workspace_id : ℕ) → List Artifact → List Edge → List EdgePair
edges_in workspace_id artifacts edges =
    map pair (where_test (λ e. lies_in artifacts workspace_id e.child_artifact_id) edges)

unfoldable pub list_edges_by_workspace : ℕ → Tx (List EdgePair)
list_edges_by_workspace workspace_id s = (ok (edges_in workspace_id s.db.artifacts s.db.edges), s)

-- `uow.outbox.write(event(…))`
unfoldable pub write : Draft → Tx (Unit {0})
write draft = do
  event_id ← uuid4
  occurred_at ← now
  λ s. (
    ok tt,
    record s { db = record s.db { outbox = s.db.outbox ++ draft event_id occurred_at ∷ [] } },
  )
