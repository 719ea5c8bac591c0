-- ===== src/Groups/Shared.antt =====
-- SharedGroup: the nodes of one group, and the instances by which this node takes part in it.
use ataraxia.Base.{
  ℕ, ◌≡◌, Bool, true, false, List, [], ◌∷◌, ◌++◌, ◌||◌, ltb, any, if◌then◌else◌, length, Text,
  nat_eq, bytes_eq, arith,
}
use ataraxia.Map
use ataraxia.Map.{Map}

-- A group goes by its key in the manager, a node by its identifier, an instance by a number.
pub record SharedGroup : Type 0 where
  pub nodes : Map Text (Unit {0})
  pub instances : List ℕ

pub data GroupEffect : Type 0 where
  node_available node_unavailable : ℕ → Text → GroupEffect
  message : ℕ → Text → GroupEffect

abbrev pub no_members : SharedGroup
no_members = record { nodes = []; instances = [] }

abbrev pub is_joined : SharedGroup → Bool
is_joined g = ltb 0 (length g.instances)

abbrev pub has_members : SharedGroup → Bool
has_members g = ltb 0 (Map.size g.nodes) || ltb 0 (length g.instances)

abbrev pub is_member : Text → SharedGroup → Bool
is_member node g = Map.has node g.nodes

abbrev pub tell : (ℕ → GroupEffect) → List ℕ → List GroupEffect
tell f [] = []
tell f (i ∷ instances) = f i ∷ tell f instances

unfoldable pub handle_node_join : Text → SharedGroup → SharedGroup × List GroupEffect
handle_node_join node g = if Map.has node g.nodes then (g, []) else (
  record g { nodes = Map.set node tt g.nodes },
  tell (λ i. node_available i node) g.instances,
)

unfoldable pub handle_node_leave : Text → SharedGroup → SharedGroup × List GroupEffect
handle_node_leave node g =
    if Map.has node g.nodes
    then (
      record g { nodes = Map.delete node g.nodes },
      tell (λ i. node_unavailable i node) g.instances,
    )
    else (g, [])

unfoldable pub handle_message : Text → SharedGroup → List GroupEffect
handle_message source g =
    if Map.has source g.nodes then tell (λ i. message i source) g.instances else []

abbrev pub has_instance : ℕ → List ℕ → Bool
has_instance i instances = any (λ j. nat_eq.beq j i) instances

abbrev pub add_instance : ℕ → List ℕ → List ℕ
add_instance i instances = if has_instance i instances then instances else instances ++ i ∷ []

abbrev pub remove_instance : ℕ → List ℕ → List ℕ
remove_instance i [] = []
remove_instance i (j ∷ instances) =
    if nat_eq.beq j i then remove_instance i instances else j ∷ remove_instance i instances

pub handle_node_join-is_member :
    (node other : Text) (g : SharedGroup)
    → is_member other (handle_node_join node g).0
      ≡ (if bytes_eq.beq node other then true else is_member other g)
unfolding handle_node_join
handle_node_join-is_member node other g =
    ground (arith, Map.has-set node other tt g.nodes, bytes_eq.beq_iff node other)

pub handle_node_leave-is_member :
    (node other : Text) (g : SharedGroup)
    → is_member other (handle_node_leave node g).0
      ≡ (if bytes_eq.beq node other then false else is_member other g)
unfolding handle_node_leave
handle_node_leave-is_member node other g =
    ground (arith, Map.has-delete node other g.nodes, bytes_eq.beq_iff node other)
