-- ===== src/Messaging/Hops.antt =====
-- The number of hops of a message.
use ataraxia.Base.{
  ℕ, suc, ◌≤◌, ◌<◌, ◌≡◌, Bool, true, false, List, [], ◌∷◌, ◌||◌, arith, length, All, if◌then◌else◌,
}
use ataraxia.Ids.{same_id}
use ataraxia.Ids.Printing.{same_id-eq_iff}
use ataraxia.Codec.{DataMessage, DataMessagePathEntry}
use ataraxia.Messaging.Defs.{contains_node}
use ataraxia.Messaging.Loops.{IsSimple, Travels, Travels-IsOnItsWay}

-- The nodes of a network, as a list.
abbrev pub mem : List ℕ → List (List ℕ) → Bool
mem id [] = false
mem id (j ∷ net) = same_id j id || mem id net

without : List ℕ → List (List ℕ) → List (List ℕ)
without id [] = []
without id (j ∷ net) = if same_id j id then net else j ∷ without id net

length-without :
    (id : List ℕ) (net : List (List ℕ))
    → mem id net ≡ true
    → length net ≡ suc (length (without id net))
unfolding without
length-without id [] h = cc
length-without id (j ∷ net) h = ground (arith, length-without id net)

mem-without :
    (id j : List ℕ) (net : List (List ℕ))
    → same_id id j ≡ false
    → mem j net ≡ true
    → mem j (without id net) ≡ true
unfolding without
mem-without id j [] h k = cc
mem-without id j (i ∷ net) h k =
    ground
      (arith, mem-without id j net h, same_id-eq_iff i id, same_id-eq_iff i j, same_id-eq_iff id j)

abbrev pub AllIn : List (List ℕ) → List DataMessagePathEntry → Type 0
AllIn net = All (λ p. mem p.node net ≡ true)

AllIn-without :
    (id : List ℕ) (net : List (List ℕ)) (path : List DataMessagePathEntry)
    → contains_node path id ≡ false
    → AllIn net path
    → AllIn (without id net) path
unfolding contains_node
AllIn-without id net [] h k = tt
AllIn-without id net (p ∷ path) h k =
    let other : same_id id p.node ≡ false =
      ground (arith, same_id-eq_iff p.node id, same_id-eq_iff id p.node, h) in
    (mem-without id p.node net other k.0, AllIn-without id net path (ground arith) k.1)

-- A simple path within a network is no longer than the network is large.
simple_bound :
    (path : List DataMessagePathEntry) (net : List (List ℕ))
    → IsSimple path
    → AllIn net path
    → length path ≤ length net
simple_bound [] net h k = omega arith
simple_bound (p ∷ path) net h k = omega (
  arith,
  simple_bound path (without p.node net) h.1 (AllIn-without p.node net path h.0 k.1),
  length-without p.node net k.0,
)

-- In a network of some nodes a message makes fewer hops than there are nodes: the path of a message
-- that travels to one of the nodes, and has visited only some of them, is shorter than their list.
pub Travels-bound :
    {to : List ℕ} {message : DataMessage} (net : List (List ℕ))
    → Travels to message
    → mem to net ≡ true
    → AllIn net message.path
    → length message.path < length net
Travels-bound {to} {message} net t here k =
    let w = Travels-IsOnItsWay t in
    omega (
      arith,
      simple_bound message.path (without to net) w.simple
          (AllIn-without to net message.path w.ahead k),
      length-without to net here,
    )
