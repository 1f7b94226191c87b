-- ===== src/LinkedList/Moves.antt =====
-- What each step of include/txl/linked_list.h does to the nodes and their owners.
use mathlib.Core.Option.{some-ne-none, some-injective}
use libtxl.Prelude.{ℕ, ◌≡◌, refl, sym, ap, ◌∙◌, Option, none, some, List, [], ◌∷◌, length, arith}
use libtxl.LinkedList.Defs.{
  ValueNode, Shared, Pc, pushing, push_loaded, popped, returning, releasing, update, write, tail,
}
use libtxl.LinkedList.Frame.{Owner, nobody, held, update_self, Ok, Chain-carried, IsLocal-keeps}
use libtxl.LinkedList.Invariant.{
  Agrees, IsMoved, held_ne, held-listed_ne, nobody-listed_ne, nobody-held_ne, held_number,
  written-IsLocal, write-IsMoved,
}

-- A write to a node that the thread holds, or to one that nobody does
module _ {A : Type 0} (s : Shared A) (owner : ℕ → Owner) (t n : ℕ) (v : Option (ValueNode A))
    (o : Owner) (pc : Pc A) (agrees : Agrees s owner) where
  held-IsMoved :
      (j : ℕ)
      → owner n ≡ held t j
      → (v ≡ none → o ≡ nobody)
      → Ok (write s n v) (update owner n o) t pc
      → IsMoved s (write s n v) owner t pc
  held-IsMoved j mine =
      write-IsMoved s owner t n v o pc agrees (λ k e. held-listed_ne t j k (sym mine ∙ e))
        (λ u k h e. held_ne t u j k h (sym mine ∙ e))

  free-IsMoved :
      owner n ≡ nobody
      → (v ≡ none → o ≡ nobody)
      → Ok (write s n v) (update owner n o) t pc
      → IsMoved s (write s n v) owner t pc
  free-IsMoved free =
      write-IsMoved s owner t n v o pc agrees (λ k e. nobody-listed_ne k (sym free ∙ e))
        (λ u k h e. nobody-held_ne u k (sym free ∙ e))

module _ {A : Type 0} (s : Shared A) (owner : ℕ → Owner) (t : ℕ) (agrees : Agrees s owner) where
  pub allocate-IsMoved :
      (n : ℕ) (v : A)
      → s.heap n ≡ none
      → IsMoved s (write s n (some (record { val = v; next = none }))) owner t (pushing n v)
  allocate-IsMoved n v free =
      let node : Option (ValueNode A) = some (record { val = v; next = none }) in
      free-IsMoved s owner t n node (held t 0) (pushing n v) agrees (agrees.unowned n free)
        (λ e. absurd (some-ne-none _ e))
        (
          update_self owner n (held t 0),
          record { after = none; is_there = update_self s.heap n node },
        )

  pub load_push-IsMoved :
      (n : ℕ) (v : A)
      → Ok s owner t (pushing n v)
      → IsMoved s
          (write s n (some (record { val = v; next = s.head.ptr })))
          owner
          t
          (push_loaded n v s.head)
  load_push-IsMoved n v (mine, there) =
      let node : Option (ValueNode A) = some (record { val = v; next = s.head.ptr }) in
      held-IsMoved s owner t n node (held t 0) (push_loaded n v s.head) agrees 0 mine
        (λ e. absurd (some-ne-none _ e)) (update_self owner n (held t 0), update_self s.heap n node)

  pub take_value-IsMoved :
      (p : ℕ) (taken : Option A) (n : ValueNode A)
      → s.heap p ≡ some n
      → Ok s owner t (popped p taken)
      → IsMoved s (write s p none) owner t (returning n.val taken)
  take_value-IsMoved p taken n there (mine, v, e, node) =
      held-IsMoved s owner t p none nobody (returning n.val taken) agrees 0 mine (λ x. refl)
        (e ∙ ap (λ m. some m.val) (some-injective _ n (sym node.is_there ∙ there)))

  -- The nodes of a release behind the first one stay.
  pub visit-IsMoved :
      (p : ℕ) (left : List A) (n : ValueNode A)
      → s.heap p ≡ some n
      → Ok s owner t (releasing (some p) left)
      → IsMoved s (write s p none) owner t (releasing n.next (tail left))
  visit-IsMoved p [] n there e = absurd (some-ne-none p e)
  visit-IsMoved p (x ∷ xs) n there (q, after, e, node, mine, chain) =
      let same : q ≡ p = sym (some-injective p q e) in
      let mine' : owner p ≡ held t (length xs) = ap owner (sym same) ∙ mine in
      let next_eq : after ≡ n.next =
        ap (λ m. m.next) (some-injective _ n (sym node ∙ ap s.heap same ∙ there)) in
      held-IsMoved s owner t p none nobody (releasing n.next xs) agrees (length xs) mine'
        (λ z. refl)
        (Chain-carried s (write s p none) owner (update owner p nobody) (held t) xs n.next
          (λ a k l.
            IsLocal-keeps s (write s p none) owner (update owner p nobody) p (held t k)
              (written-IsLocal s owner p none nobody)
              (λ h.
                let same_number : length xs ≡ k = held_number t (length xs) k (sym mine' ∙ h) in
                absurd (omega (arith, l, same_number)))
              a)
          (rw (sym next_eq) chain))
