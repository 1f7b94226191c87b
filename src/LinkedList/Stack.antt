-- ===== src/LinkedList/Stack.antt =====
-- What the threads of include/txl/linked_list.h see: one stack.
use mathlib.Core.Option
use libtxl.Prelude.{
  ℕ, zero, suc, ◌<◌, ◌≡◌, refl, sym, Option, none, some, List, [], ◌∷◌, length, size_mod,
}
use libtxl.LinkedList.Defs.{ValueNode, System, Pc, returning, releasing, Reach, initial}
use libtxl.LinkedList.Frame.{Owner, listed, held, Chain, Ok}
use libtxl.LinkedList.Preserve.{Reach-Inv}

-- The values of the nodes from a pointer on, for at most so many nodes
abbrev pub contents : {A : Type 0} → ℕ → (ℕ → Option (ValueNode A)) → Option ℕ → Option (List A)
contents fuel heap none = some []
contents zero heap (some p) = none
contents (suc fuel) heap (some p) = elim (heap p) [
  | none ↦ none
  | some n ↦ Option.map (λ xs. n.val ∷ xs) (contents fuel heap n.next)
]

Chain-contents :
    {A : Type 0} (heap : ℕ → Option (ValueNode A)) (owner tag : ℕ → Owner) (ptr : Option ℕ)
    (xs : List A)
    → Chain heap owner tag ptr xs
    → contents (length xs) heap ptr ≡ some xs
Chain-contents heap owner tag ptr [] e = rw (e) refl
Chain-contents heap owner tag ptr (x ∷ xs) (p, after, e, there, mine, c) =
    rw (e, there, Chain-contents heap owner tag after xs c) refl

module _ {A : Type 0} (y : System A) (reached : Reach initial y)
    (bound : y.shared.swaps < size_mod) where
  -- In every state that the threads reach with fewer than 2^64 exchanges, however their steps
  -- interleave, the nodes from the head on end in `nullptr` and hold the values of the abstract
  -- stack, in its order.
  pub reached-contents :
      contents (length y.shared.stack) y.shared.heap y.shared.head.ptr ≡ some y.shared.stack
  reached-contents =
      let inv = Reach-Inv y reached bound in
      Chain-contents y.shared.heap inv.owner listed y.shared.head.ptr y.shared.stack
        inv.agrees.chain

  own_facts : (t : ℕ) {pc : Pc A} → y.pcs t ≡ pc → (owner : ℕ → Owner) × Ok y.shared owner t pc
  own_facts t e = let inv = Reach-Inv y reached bound in (inv.owner, rw (sym e) (inv.threads t))

  -- In every state that the threads reach with fewer than 2^64 exchanges, a pop that is about to
  -- return `res` took what was the top of the abstract stack when its exchange succeeded.
  pub pop_returns_top :
      (t : ℕ) (res : A) (taken : Option A) → y.pcs t ≡ returning res taken → taken ≡ some res
  pop_returns_top t res taken e = (own_facts t e).1

  -- In every state that the threads reach with fewer than 2^64 exchanges, the nodes that a release
  -- has still to visit are allocated and hold, in order, the values left of the stack that its
  -- exchange took.
  pub release_visits :
      (t : ℕ) (ptr : Option ℕ) (left : List A)
      → y.pcs t ≡ releasing ptr left
      → contents (length left) y.shared.heap ptr ≡ some left
  release_visits t ptr left e =
      let (owner, chain) = own_facts t e in
      Chain-contents y.shared.heap owner (held t) ptr left chain
