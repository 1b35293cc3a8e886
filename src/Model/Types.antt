-- ===== src/Model/Types.antt =====
-- web/src/model/types.ts: the flow model. `null` is `none`; a field that holds a list of trees, a
-- tree or null, or a tree, `false` or null has a type of its own beside `Tree`.
use tolquane.Base.{ℤ, String, Bool, Option, List, [], ◌∷◌, ◌≡◌, refl, ap}

pub data NodeKind : Type 0 where
  source node sink raw : NodeKind

pub record NodeDef : Type 0 where
  pub id : String
  pub kind : NodeKind
  pub is_class : Bool
  pub is_async : Bool
  pub params : List String
  pub doc : Option String
  pub source : String

pub data EmitPolicy : Type 0 where
  round_robin on_demand broadcast scatter key : EmitPolicy

pub data CollectPolicy : Type 0 where
  first_come round_robin ordered gather : CollectPolicy

pub data Runtime : Type 0 where
  threads processes : Runtime

-- The options of a farm that hold no tree.
pub record FarmSettings : Type 0 where
  pub emit : EmitPolicy
  pub collect : Option CollectPolicy
  pub ordered : Bool
  pub prefetch : ℤ
  pub window : Option ℤ
  pub name : Option String
  pub capacity : Option ℤ
  pub runtime : Option Runtime

mutual
  pub data Tree : Type 0 where
    start : Tree
    ref : String → Tree
    inline : String → Tree
    pipeline : Trees → Tree
    farm : Worker → ℤ → FarmOptions → Tree
    comb : Tree → Tree → Tree
    feedback : Tree → Option String → Tree
    all2all : Tree → Tree → MaybeTree → MaybeTree → Bool → Tree

  -- `Tree[]`
  pub data Trees : Type 0 where
    nil : Trees
    cons : Tree → Trees → Trees

  -- `Tree | Tree[]`
  pub data Worker : Type 0 where
    one : Tree → Worker
    many : Trees → Worker

  -- `Tree | null`
  pub data MaybeTree : Type 0 where
    nothing : MaybeTree
    just : Tree → MaybeTree

  -- `Tree | false | null`
  pub data Slot : Type 0 where
    default : Slot
    exposed : Slot
    block : Tree → Slot

  -- The settings, the emitter, the collector and the key function.
  pub data FarmOptions : Type 0 where
    options : FarmSettings → Slot → Slot → MaybeTree → FarmOptions

abbrev pub to_list : Trees → List Tree
to_list nil = []
to_list (cons t ts) = t ∷ to_list ts

abbrev pub of_list : List Tree → Trees
of_list [] = nil
of_list (t ∷ ts) = cons t (of_list ts)

pub to_list-of_list : (ts : List Tree) → to_list (of_list ts) ≡ ts
to_list-of_list [] = refl
to_list-of_list (t ∷ ts) = ap (t ∷◌) (to_list-of_list ts)

pub of_list-to_list : (ts : Trees) → of_list (to_list ts) ≡ ts
of_list-to_list nil = refl
of_list-to_list (cons t ts) = ap (cons t) (of_list-to_list ts)

abbrev pub settings : FarmOptions → FarmSettings
settings (options s e c k) = s

pub record FlowParam : Type 0 where
  pub name : String
  pub default : String
  pub annotation : Option String

pub record FlowModel : Type 0 where
  pub version : ℤ
  pub name : String
  pub doc : Option String
  pub prelude : List String
  pub nodes : List NodeDef
  pub flow : Tree
  pub start : Option String
  pub params : List FlowParam
  pub main : Option String
  pub epilogue : List String
  pub build_notes : List String
  pub guard : Option String
