-- ===== src/Domain/Ltm.antt =====
-- src/domain/ltm.rs: the knowledge tree of long-term memory, its nodes, edges and leaves.
use neurolithe.Base.{
  ℕ, ◌≡◌, refl, ◌↔◌, Bool, true, not, Option, none, some, List, [], ◌∷◌, map, arith, if◌then◌else◌,
  ◌==◌, nat_key, text_key, list_eqb_iff, is_empty, filter,
}
use neurolithe.Base.Text.{Text, text, split, trim, Unicode}

pub data TreeNodeKind : Type 0 where
  spine grown inbox leaf : TreeNodeKind

-- `TreeNodeKind::as_str`
unfoldable pub as_str : TreeNodeKind → Text
as_str spine = text "spine"
as_str grown = text "grown"
as_str inbox = text "inbox"
as_str leaf = text "leaf"

-- `TreeNodeKind::from_db_str`; `none` is its error.
unfoldable from_db_str : Text → Option TreeNodeKind
from_db_str s =
    if s == text "spine"
    then some spine
    else if s == text "grown"
    then some grown
    else if s == text "inbox"
    then some inbox
    else if s == text "leaf"
    then some leaf
    else none

pub record TreeNode : Type 0 where
  pub id : Option ℕ
  pub name : Text
  pub summary : Text
  pub kind : TreeNodeKind
  pub permanent : Bool
  pub created_at : Option ℕ
  pub updated_at : Option ℕ

-- `TreeNode::new`
abbrev pub new_node : Text → Text → TreeNodeKind → TreeNode
new_node name summary kind = record {
  id = none;
  name = name;
  summary = summary;
  kind = kind;
  permanent = true;
  created_at = none;
  updated_at = none;
}

pub record TreeEdge (F : Type 0) : Type 0 where
  pub parent_id : ℕ
  pub child_id : ℕ
  pub weight : F

pub record Provenance (F : Type 0) : Type 0 where
  pub source : Text
  pub ingested_at : Option ℕ
  pub confidence : F

pub record DocumentBody : Type 0 where
  pub title : Text
  pub body : Text

pub record Leaf (F : Type 0) : Type 0 where
  pub tree_node_id : ℕ
  pub data_id : Text
  pub provenance : Provenance F

pub record SpineSeed : Type 0 where
  pub path : Text
  pub description : Text

-- `SpineSeed::segments`
unfoldable pub segments : Unicode → SpineSeed → List Text
segments u seed =
    filter (λ s. not (is_empty s)) (map (trim u.is_whitespace) (split (λ c. c == b'/') seed.path))

-- `default_spine`
abbrev pub default_spine : List SpineSeed
default_spine =
    record {
      path = text "notes";
      description = text "Notes, ideas, decisions, and facts worth keeping.";
    }
    ∷ record {
      path = text "documents";
      description = text "Documents, references, and longer texts filed for later recall.";
    }
    ∷ []

written : (k : TreeNodeKind) → from_db_str (as_str k) ≡ some k
unfolding from_db_str as_str
written spine = refl
written grown = refl
written inbox = refl
written leaf = refl

read : (s : Text) (k : TreeNodeKind) → from_db_str s ≡ some k → s ≡ as_str k
unfolding from_db_str as_str
read s k h = ground (
  arith,
  list_eqb_iff s (text "spine"),
  list_eqb_iff s (text "grown"),
  list_eqb_iff s (text "inbox"),
  list_eqb_iff s (text "leaf"),
)

-- The column that stores a kind is read back as that kind, and what is read as a kind is its name.
from_db_str_iff : (s : Text) (k : TreeNodeKind) → (from_db_str s ≡ some k) ↔ (s ≡ as_str k)
unfolding from_db_str as_str
from_db_str_iff s k = (λ h. read s k h, λ h. rw h (written k))
