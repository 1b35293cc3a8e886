-- ===== src/Model/Problems.antt =====
-- web/src/model/validate.ts: a problem, the kinds of node at the ends of a block, and its name.
use tolquane.Base.{String, Bool, true, false, Option, none, some, if◌then◌else◌, or_else}
use tolquane.Model.Types.{
  NodeKind, EmitPolicy, CollectPolicy, Runtime, FarmSettings, Tree, start, ref, inline, pipeline,
  farm, comb, feedback, all2all, Trees, nil, cons, Worker, one, many, MaybeTree, nothing, just,
  Slot, exposed, settings, FlowModel,
}
use tolquane.Model.Nodes.{find_node, kind_of}

pub data Severity : Type 0 where
  error warning : Severity

pub data Origin : Type 0 where
  model server : Origin

pub record Problem : Type 0 where
  pub path : Option String
  pub message : String
  pub severity : Severity
  pub origin : Origin
  pub hint : Option String

abbrev pub problem : Option String → String → Severity → Problem
problem path message severity = record {
  path = path;
  message = message;
  severity = severity;
  origin = Origin.model;
  hint = none;
}

abbrev pub fault : String → String → Problem
fault path message = problem (some path) message Severity.error

-- `'first' | 'last'`
pub data End : Type 0 where
  first last : End

abbrev last_of : Trees → Option NodeKind → Option NodeKind → Option NodeKind
last_of nil own rest = own
last_of (cons t ts) own rest = rest

unfoldable mutual
  pub terminal_kind : Tree → FlowModel → End → Option NodeKind
  terminal_kind (ref id) m e = kind_of (find_node m id)
  terminal_kind (pipeline ts) m e = terminal_stage ts m e
  terminal_kind (farm w n o) m e = terminal_worker w m e
  terminal_kind (comb a b) m first = terminal_kind a m first
  terminal_kind (comb a b) m last = terminal_kind b m last
  terminal_kind (feedback t name) m e = terminal_kind t m e
  terminal_kind (all2all l r x y b) m first = terminal_kind l m first
  terminal_kind (all2all l r x y b) m last = terminal_kind r m last
  terminal_kind start m e = some NodeKind.source
  terminal_kind (inline s) m e = none

  pub terminal_stage : Trees → FlowModel → End → Option NodeKind
  terminal_stage nil m e = none
  terminal_stage (cons t ts) m first = terminal_kind t m first
  terminal_stage (cons t ts) m last = last_of ts (terminal_kind t m last) (terminal_stage ts m last)

  pub terminal_worker : Worker → FlowModel → End → Option NodeKind
  terminal_worker (one t) m e = terminal_kind t m e
  terminal_worker (many ts) m e = terminal_first ts m e

  pub terminal_first : Trees → FlowModel → End → Option NodeKind
  terminal_first nil m e = none
  terminal_first (cons t ts) m e = terminal_kind t m e

abbrev pub is_source : Option NodeKind → Bool
is_source (some NodeKind.source) = true
is_source _ = false

abbrev pub is_sink : Option NodeKind → Bool
is_sink (some NodeKind.sink) = true
is_sink _ = false

abbrev pub is_raw : Option NodeKind → Bool
is_raw (some NodeKind.raw) = true
is_raw _ = false

abbrev pub is_plain : Tree → Bool
is_plain (ref id) = true
is_plain (inline s) = true
is_plain _ = false

unfoldable pub label : Tree → String
label (ref id) = id
label start = "start"
label (inline s) = s
label (farm w n o) = or_else ((settings o).name) "the farm"
label (feedback t name) = or_else name "the loop"
label (pipeline ts) = "the pipeline"
label (comb a b) = "the comb"
label (all2all l r x y b) = "the all2all"

abbrev pub is_given : MaybeTree → Bool
is_given nothing = false
is_given (just t) = true

abbrev pub is_exposed : Slot → Bool
is_exposed exposed = true
is_exposed _ = false

abbrev pub is_key : EmitPolicy → Bool
is_key EmitPolicy.key = true
is_key _ = false

abbrev pub is_round_robin : EmitPolicy → Bool
is_round_robin EmitPolicy.round_robin = true
is_round_robin _ = false

abbrev pub is_scatter : EmitPolicy → Bool
is_scatter EmitPolicy.scatter = true
is_scatter _ = false

abbrev pub is_ordered : CollectPolicy → Bool
is_ordered CollectPolicy.ordered = true
is_ordered _ = false

abbrev pub is_gather : CollectPolicy → Bool
is_gather CollectPolicy.gather = true
is_gather _ = false

abbrev pub holds {ℓ} : {A : Type ℓ} → (A → Bool) → Option A → Bool
holds p none = false
holds p (some a) = p a

abbrev pub is_processes : Runtime → Bool
is_processes Runtime.processes = true
is_processes Runtime.threads = false

-- The collect policy that a farm ends up with.
unfoldable pub effective_collect : FarmSettings → CollectPolicy
effective_collect s = or_else s.collect (
    if s.ordered
    then CollectPolicy.ordered
    else if is_scatter s.emit
    then CollectPolicy.gather
    else CollectPolicy.first_come)
