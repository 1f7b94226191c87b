-- ===== src/LinkedList/Invariant.antt =====
-- The invariant of the threads of include/txl/linked_list.h.
use libtxl.Prelude.{
  ℕ, ◌+◌, ◌<◌, ◌≡◌, ◌≢◌, refl, sym, ap, ◌∙◌, inl, inr, ◌⊎◌, Bool-cases, Option, none, List, ◌==◌,
  ==_iff, length, arith, size_mod,
}
use libtxl.LinkedList.Defs.{ValueNode, Shared, System, Pc, update, write, swapped}
use libtxl.LinkedList.Frame.{
  Owner, nobody, listed, held, update_self, update_ne, Chain, Ok, Frames, Chain-carried, Ok-carried,
  IsLocal, IsLocal-keeps, first,
}

-- What holds of the shared memory
pub record Agrees {A : Type 0} (s : Shared A) (owner : ℕ → Owner) : Type 0 where
  pub chain : Chain s.heap owner listed s.head.ptr s.stack
  pub current : s.head.ctr ≡ s.swaps
  pub unowned : (a : ℕ) → s.heap a ≡ none → owner a ≡ nobody

pub record Inv {A : Type 0} (y : System A) : Type 0 where
  pub owner : ℕ → Owner
  pub agrees : Agrees y.shared owner
  pub threads : (t : ℕ) → Ok y.shared owner t (y.pcs t)

-- What a step of the thread `t` gives
pub record IsMoved {A : Type 0} (s s' : Shared A) (owner : ℕ → Owner) (t : ℕ) (pc : Pc A)
    : Type 0 where
  pub owner' : ℕ → Owner
  pub agrees : Agrees s' owner'
  pub own : Ok s' owner' t pc
  pub others : (u : ℕ) → u ≢ t → Frames s s' owner owner' u

pub held_ne : (t u j k : ℕ) → u ≢ t → held t j ≢ held u k
held_ne t u j k h e =
    h (sym (ap (λ o. elim o as (λ x. ℕ) [ nobody ↦ 0 | listed i ↦ 0 | held w i ↦ w ]) e))

pub listed_ne : (u j k : ℕ) → listed j ≢ held u k
listed_ne u j k e =
    absurd
      (omega (arith, ap (λ o. elim o as (λ x. ℕ) [ nobody ↦ 0 | listed i ↦ 0 | held w i ↦ 1 ]) e))

pub held-listed_ne : (t j k : ℕ) → held t j ≢ listed k
held-listed_ne t j k e = listed_ne t k j (sym e)

pub nobody-listed_ne : (k : ℕ) → nobody ≢ listed k
nobody-listed_ne k e =
    absurd
      (omega (arith, ap (λ o. elim o as (λ x. ℕ) [ nobody ↦ 0 | listed i ↦ 1 | held w i ↦ 1 ]) e))

pub nobody-held_ne : (u k : ℕ) → nobody ≢ held u k
nobody-held_ne u k e =
    absurd
      (omega (arith, ap (λ o. elim o as (λ x. ℕ) [ nobody ↦ 0 | listed i ↦ 1 | held w i ↦ 1 ]) e))

pub same_or : (a n : ℕ) → (a ≡ n) ⊎ (a ≢ n)
same_or a n = elim (Bool-cases (a == n)) [
  | inl e ↦ inl ((==_iff a n).0 e)
  | inr e ↦ inr (λ h. absurd (ground (arith, h)))
]

-- The memory and the owner of one address set anew
pub written-IsLocal :
    {A : Type 0} (s : Shared A) (owner : ℕ → Owner) (n : ℕ) (v : Option (ValueNode A)) (o : Owner)
    → IsLocal s (write s n v) owner (update owner n o) n
written-IsLocal s owner n v o = record {
  elsewhere = λ a ne. (update_ne owner n a o ne, update_ne s.heap n a v ne);
}

pub held_number : (t j k : ℕ) → held t j ≡ held t k → j ≡ k
held_number t j k e = ap (λ o. elim o as (λ x. ℕ) [ nobody ↦ 0 | listed i ↦ i | held w i ↦ i ]) e

pub listed_number : (j k : ℕ) → listed j ≡ listed k → j ≡ k
listed_number j k e = ap (λ o. elim o as (λ x. ℕ) [ nobody ↦ 0 | listed i ↦ i | held w i ↦ i ]) e

-- A write to a node that the thread holds or that nobody does
module _ {A : Type 0} (s : Shared A) (owner : ℕ → Owner) (t n : ℕ) (v : Option (ValueNode A))
    (o : Owner) where
  pub write-IsMoved :
      (pc : Pc A)
      → Agrees s owner
      → ((k : ℕ) → owner n ≢ listed k)
      → ((u k : ℕ) → u ≢ t → owner n ≢ held u k)
      → (v ≡ none → o ≡ nobody)
      → Ok (write s n v) (update owner n o) t pc
      → IsMoved s (write s n v) owner t pc
  write-IsMoved pc agrees not_listed not_theirs freed own = record {
    owner' = update owner n o;
    agrees = record {
      chain =
          Chain-carried s (write s n v) owner (update owner n o) listed s.stack s.head.ptr
            (λ a k l.
              IsLocal-keeps s (write s n v) owner (update owner n o) n (listed k)
                (written-IsLocal s owner n v o) (not_listed k) a)
            agrees.chain;
      current = agrees.current;
      unowned = λ a e. elim (same_or a n) [
        | inl same ↦
            let gone : v ≡ none =
              sym (update_self s.heap n v) ∙ ap (update s.heap n v) (sym same) ∙ e in
            ap (update owner n o) same ∙ update_self owner n o ∙ freed gone
        | inr ne ↦ update_ne owner n a o ne ∙ agrees.unowned a (sym (update_ne s.heap n a v ne) ∙ e)
      ];
    };
    own = own;
    others = λ u h. record {
      keeps = λ a k.
          IsLocal-keeps s (write s n v) owner (update owner n o) n (held u k)
            (written-IsLocal s owner n v o) (not_theirs u k h) a;
      grows = omega arith;
      head_stays = λ e. refl;
      node_stays = λ p e at_head.
          let f = first s owner p agrees.chain at_head in
          update_ne s.heap n p v
            (λ same. not_listed (length f.rest) (ap owner (sym same) ∙ f.is_listed));
    };
  }

-- A successful exchange
module _ {A : Type 0} (s : Shared A) (owner owner' : ℕ → Owner) (t : ℕ) (p : Option ℕ)
    (xs : List A) where
  pub swap-IsMoved :
      (pc : Pc A)
      → Agrees s owner
      → s.swaps + 1 < size_mod
      → Chain s.heap owner' listed p xs
      → ((a : ℕ) → s.heap a ≡ none → owner' a ≡ nobody)
      → ((u a k : ℕ) → u ≢ t → owner a ≡ held u k → owner' a ≡ held u k)
      → Ok (swapped s p xs) owner' t pc
      → IsMoved s (swapped s p xs) owner t pc
  swap-IsMoved pc agrees bound chain unowned keeps own = record {
    owner' = owner';
    agrees = record {
      chain = chain;
      current = let e = agrees.current in omega (arith, e);
      unowned = unowned;
    };
    own = own;
    others = λ u h. record {
      keeps = λ a k e. (keeps u a k h e, refl);
      grows = omega arith;
      head_stays = λ e. absurd (omega (arith, e));
      node_stays = λ p e at_head. refl;
    };
  }

-- A step that changes the counts at most
module _ {A : Type 0} (s : Shared A) (i j : ℕ) (owner : ℕ → Owner) where
  count-Frames : (u : ℕ) → Frames s (record s { num_inserts = i; num_pops = j }) owner owner u
  count-Frames u = record {
    keeps = λ a k e. (e, refl);
    grows = omega arith;
    head_stays = λ e. refl;
    node_stays = λ p e at_head. refl;
  }

  pub quiet-IsMoved :
      (t : ℕ) (pc : Pc A)
      → Agrees s owner
      → Ok s owner t pc
      → IsMoved s (record s { num_inserts = i; num_pops = j }) owner t pc
  quiet-IsMoved t pc agrees own = record {
    owner' = owner;
    agrees = record { chain = agrees.chain; current = agrees.current; unowned = agrees.unowned };
    own =
        Ok-carried s (record s { num_inserts = i; num_pops = j }) owner owner t pc (count-Frames t)
          own;
    others = λ u h. count-Frames u;
  }
