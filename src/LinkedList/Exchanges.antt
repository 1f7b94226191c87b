-- ===== src/LinkedList/Exchanges.antt =====
-- What the reads and the exchanges of include/txl/linked_list.h do to the nodes and their owners.
use mathlib.Core.Option.{some-ne-none, some-injective}
use libtxl.Prelude.{
  ℕ, ◌+◌, ◌<◌, ◌≡◌, refl, sym, ap, ◌∙◌, inl, inr, Option, none, some, List, [], ◌∷◌, length, arith,
  size_mod,
}
use libtxl.LinkedList.Defs.{
  ValueNode, NodeGen, Shared, push_loaded, inserted, pop_loaded, pop_read, popped, reset_inserts,
  update, swapped, top, tail,
}
use libtxl.LinkedList.Frame.{
  Owner, nobody, listed, held, update_self, update_ne, Chain, Ok, Chain-carried, IsLocal,
  IsLocal-keeps, first,
}
use libtxl.LinkedList.Invariant.{
  Agrees, IsMoved, held_ne, listed_ne, held-listed_ne, same_or, listed_number, swap-IsMoved,
}

-- A new owner for one address
owner-IsLocal :
    {A : Type 0} (s : Shared A) (owner : ℕ → Owner) (n : ℕ) (o : Owner)
    → IsLocal s s owner (update owner n o) n
owner-IsLocal s owner n o = record { elsewhere = λ a ne. (update_ne owner n a o ne, refl) }

owner-unowned :
    {A : Type 0} (s : Shared A) (owner : ℕ → Owner) (n : ℕ) (o : Owner) (m : ValueNode A)
    → Agrees s owner
    → s.heap n ≡ some m
    → (a : ℕ) → s.heap a ≡ none
    → update owner n o a ≡ nobody
owner-unowned s owner n o m agrees there a e = elim (same_or a n) [
  | inl same ↦ absurd (some-ne-none m (sym there ∙ ap s.heap (sym same) ∙ e))
  | inr ne ↦ update_ne owner n a o ne ∙ agrees.unowned a e
]

-- What an exchange that takes the whole list does to the owners
grab : ℕ → Owner → Owner
grab t nobody = nobody
grab t (listed k) = held t k
grab t (held u k) = held u k

grab-listed : (t k : ℕ) → grab t (listed k) ≡ held t k
unfolding grab
grab-listed t k = refl

grab-held : (t u k : ℕ) → grab t (held u k) ≡ held u k
unfolding grab
grab-held t u k = refl

grab-nobody : (t : ℕ) → grab t nobody ≡ nobody
unfolding grab
grab-nobody t = refl

grab-Chain :
    {A : Type 0} (heap : ℕ → Option (ValueNode A)) (owner : ℕ → Owner) (t : ℕ) (ptr : Option ℕ)
    (xs : List A)
    → Chain heap owner listed ptr xs
    → Chain heap (λ a. grab t (owner a)) (held t) ptr xs
grab-Chain heap owner t ptr [] c = c
grab-Chain heap owner t ptr (x ∷ xs) (p, after, e, there, mine, c) = (
  p,
  after,
  e,
  there,
  ap (grab t) mine ∙ grab-listed t (length xs),
  grab-Chain heap owner t after xs c,
)

module _ {A : Type 0} (s : Shared A) (owner : ℕ → Owner) (t : ℕ) (agrees : Agrees s owner) where
  pub load_pop-Ok : (p : ℕ) → s.head.ptr ≡ some p → Ok s owner t (pop_loaded p s.head.ctr)
  load_pop-Ok p h = let e = agrees.current in (omega (arith, e), λ k. h)

  pub read_next-Ok :
      (p c : ℕ) (n : ValueNode A)
      → s.heap p ≡ some n
      → Ok s owner t (pop_loaded p c)
      → Ok s owner t (pop_read p c n.next)
  read_next-Ok p c n there (le, at_head) = (le, λ e. (at_head e, n.val, there))

  -- A thread that reads freed memory has an old head.
  pub read_freed-Ok :
      (p c : ℕ) (after : Option ℕ)
      → s.heap p ≡ none
      → Ok s owner t (pop_loaded p c)
      → Ok s owner t (pop_read p c after)
  read_freed-Ok p c after gone (le, at_head) = (
    le,
    λ e.
        let f = first s owner p agrees.chain (at_head e) in
        absurd (some-ne-none _ (sym f.is_there ∙ gone)),
  )

  pub swap_push-IsMoved :
      (n : ℕ) (v : A) (h : NodeGen)
      → s.head ≡ h
      → s.swaps + 1 < size_mod
      → Ok s owner t (push_loaded n v h)
      → IsMoved s (swapped s (some n) (v ∷ s.stack)) owner t inserted
  swap_push-IsMoved n v h same bound (mine, there) =
      let owner' = update owner n (listed (length s.stack)) in
      swap-IsMoved s owner owner' t (some n) (v ∷ s.stack) inserted agrees bound
        (
          n,
          s.head.ptr,
          refl,
          there ∙ ap (λ g. some (record { val = v; next = g.ptr })) (sym same),
          update_self owner n (listed (length s.stack)),
          Chain-carried s s owner owner' listed s.stack s.head.ptr
              (λ a k l.
                IsLocal-keeps s s owner owner' n (listed k)
                  (owner-IsLocal s owner n (listed (length s.stack)))
                  (λ e. held-listed_ne t 0 k (sym mine ∙ e)) a)
              agrees.chain,
        )
        (owner-unowned s owner n (listed (length s.stack)) _ agrees there)
        (λ u a k ne e.
          (IsLocal-keeps s s owner owner' n (held u k)
            (owner-IsLocal s owner n (listed (length s.stack)))
            (λ e'. held_ne t u 0 k ne (sym mine ∙ e')) a e).0)
        tt

  pub swap_release-IsMoved :
      (h : NodeGen)
      → s.head ≡ h
      → s.swaps + 1 < size_mod
      → IsMoved s (swapped s none []) owner t (reset_inserts h.ptr s.stack)
  swap_release-IsMoved h same bound =
      let whole : Chain s.heap (λ a. grab t (owner a)) (held t) h.ptr s.stack =
        rw (sym same) (grab-Chain s.heap owner t s.head.ptr s.stack agrees.chain) in
      swap-IsMoved s owner (λ a. grab t (owner a)) t none [] (reset_inserts h.ptr s.stack) agrees
        bound refl (λ a e. ap (grab t) (agrees.unowned a e) ∙ grab-nobody t)
        (λ u a k ne e. ap (grab t) e ∙ grab-held t u k) whole

  pub swap_pop-IsMoved :
      (p c : ℕ) (after : Option ℕ)
      → s.head ≡ record { ptr = some p; ctr = c }
      → s.swaps + 1 < size_mod
      → Ok s owner t (pop_read p c after)
      → IsMoved s (swapped s after (tail s.stack)) owner t (popped p (top s.stack))
  swap_pop-IsMoved p c after same bound (le, at_head) =
      let now : c ≡ s.swaps = ap (λ g. g.ctr) (sym same) ∙ agrees.current in
      let (h, v, there) = at_head now in
      let f = first s owner p agrees.chain h in
      let owner' = update owner p (held t 0) in
      let after_eq : f.after ≡ after =
        ap (λ m. m.next) (some-injective _ _ (sym f.is_there ∙ there)) in
      let local = owner-IsLocal s owner p (held t 0) in
      let rest_chain : Chain s.heap owner' listed after (tail s.stack) =
        rw (f.stack_eq, sym after_eq)
          (Chain-carried s s owner owner' listed f.rest f.after
            (λ a k l.
              IsLocal-keeps s s owner owner' p (listed k) local
                (λ e.
                  let number : length f.rest ≡ k =
                    listed_number (length f.rest) k (sym f.is_listed ∙ e) in
                  absurd (omega (arith, l, number)))
                a)
            f.chain) in
      swap-IsMoved s owner owner' t after (tail s.stack) (popped p (top s.stack)) agrees bound
        rest_chain (owner-unowned s owner p (held t 0) _ agrees f.is_there)
        (λ u a k ne e.
          (IsLocal-keeps s s owner owner' p (held u k) local
            (λ e'. listed_ne u (length f.rest) k (sym f.is_listed ∙ e')) a e).0)
        (
          update_self owner p (held t 0),
          f.first,
          ap top f.stack_eq,
          record { after = f.after; is_there = f.is_there },
        )
