-- ===== src/LinkedList/Frame.antt =====
-- Who owns each node of include/txl/linked_list.h, and what a thread knows.
use libtxl.Prelude.{
  ℕ, ◌≤◌, ◌<◌, ◌≡◌, ◌≢◌, refl, sym, ap, ◌∙◌, Option, none, some, List, [], ◌∷◌, ◌==◌, length, false,
  arith, ==_refl,
}
use mathlib.Core.Option.{some-ne-none, some-injective}
use libtxl.LinkedList.Defs.{
  ValueNode, Shared, Pc, idle, pushing, push_loaded, inserted, pop_loaded, pop_read, popped,
  returning, release_loaded, reset_inserts, reset_pops, releasing, update,
}

-- A node stands in the list, or one thread holds it; the number is that of the nodes behind it.
-- Nobody owns memory that is not allocated.
pub data Owner : Type 0 where
  nobody : Owner
  listed : ℕ → Owner
  held : ℕ → ℕ → Owner

pub update_self : {B : Type 0} (f : ℕ → B) (i : ℕ) (v : B) → update f i v i ≡ v
update_self f i v = rw (==_refl i) refl

pub update_ne : {B : Type 0} (f : ℕ → B) (i j : ℕ) (v : B) → j ≢ i → update f i v j ≡ f j
update_ne f i j v h = let e : (j == i) ≡ false = ground arith in rw (e) refl

-- The first node of a list that is not empty
pub record IsNode {A : Type 0} (heap : ℕ → Option (ValueNode A)) (p : ℕ) (v : A) : Type 0 where
  pub after : Option ℕ
  pub is_there : heap p ≡ some (record { val = v; next = after })

-- The nodes from a pointer on hold the values `xs`, and are owned as `tag` says.
abbrev pub Chain :
    {A : Type 0}
    → (ℕ → Option (ValueNode A))
    → (ℕ → Owner)
    → (ℕ → Owner)
    → Option ℕ
    → List A
    → Type 0
Chain heap owner tag ptr [] = ptr ≡ none
Chain heap owner tag ptr (x ∷ xs) =
    (p : ℕ) × (after : Option ℕ) × (ptr ≡ some p)
    × (heap p ≡ some (record { val = x; next = after }))
    × (owner p ≡ tag (length xs))
    × Chain heap owner tag after xs

-- What holds of a thread, by its program counter.
abbrev pub Ok : {A : Type 0} → Shared A → (ℕ → Owner) → ℕ → Pc A → Type 0
Ok s owner t idle = Unit
Ok s owner t (pushing n v) = (owner n ≡ held t 0) × IsNode s.heap n v
Ok s owner t (push_loaded n v h) =
    (owner n ≡ held t 0) × (s.heap n ≡ some (record { val = v; next = h.ptr }))
Ok s owner t (pop_loaded p c) = (c ≤ s.swaps) × (c ≡ s.swaps → s.head.ptr ≡ some p)
Ok {A} s owner t (pop_read p c after) =
    (c ≤ s.swaps)
    × (c ≡ s.swaps
        → (s.head.ptr ≡ some p) × (v : A) × (s.heap p ≡ some (record { val = v; next = after })))
Ok {A} s owner t (popped p taken) =
    (owner p ≡ held t 0) × (v : A) × (taken ≡ some v) × IsNode s.heap p v
Ok s owner t inserted = Unit
Ok s owner t (returning res taken) = taken ≡ some res
Ok s owner t (release_loaded h) = Unit
Ok s owner t (reset_inserts ptr left) = Chain s.heap owner (held t) ptr left
Ok s owner t (reset_pops ptr left) = Chain s.heap owner (held t) ptr left
Ok s owner t (releasing ptr left) = Chain s.heap owner (held t) ptr left

-- A change that leaves a thread's nodes alone, and the head's while the head stays.
pub record Frames {A : Type 0} (s s' : Shared A) (owner owner' : ℕ → Owner) (u : ℕ) : Type 0 where
  pub keeps : (a k : ℕ) → owner a ≡ held u k → (owner' a ≡ held u k) × (s'.heap a ≡ s.heap a)
  pub grows : s.swaps ≤ s'.swaps
  pub head_stays : s'.swaps ≡ s.swaps → s'.head ≡ s.head
  pub node_stays : (p : ℕ) → s'.swaps ≡ s.swaps → s.head.ptr ≡ some p → s'.heap p ≡ s.heap p

module _ {A : Type 0} (s s' : Shared A) (owner owner' : ℕ → Owner) where
  pub Chain-carried :
      (tag : ℕ → Owner) (xs : List A) (ptr : Option ℕ)
      → ((a k : ℕ) → k < length xs → owner a ≡ tag k → (owner' a ≡ tag k) × (s'.heap a ≡ s.heap a))
      → Chain s.heap owner tag ptr xs
      → Chain s'.heap owner' tag ptr xs
  Chain-carried tag [] ptr keeps c = c
  Chain-carried tag (x ∷ xs) ptr keeps (p, after, e, there, mine, c) =
      let (mine', same) = keeps p (length xs) (omega arith) mine in
      (
        p,
        after,
        e,
        same ∙ there,
        mine',
        Chain-carried tag xs after (λ a k l. keeps a k (omega arith)) c,
      )

  IsNode-carried : (p : ℕ) (v : A) → s'.heap p ≡ s.heap p → IsNode s.heap p v → IsNode s'.heap p v
  IsNode-carried p v same n = record { after = n.after; is_there = same ∙ n.is_there }

  -- The counters only grow, so one that is current was current before.
  still :
      (c : ℕ)
      → s.swaps ≤ s'.swaps
      → c ≤ s.swaps
      → c ≡ s'.swaps
      → (c ≡ s.swaps) × (s'.swaps ≡ s.swaps)
  still c g h e = (omega arith, omega arith)

  pub Ok-carried :
      (u : ℕ) (pc : Pc A) → Frames s s' owner owner' u → Ok s owner u pc → Ok s' owner' u pc
  Ok-carried u idle f h = h
  Ok-carried u (pushing n v) f (mine, there) =
      let (mine', same) = f.keeps n 0 mine in (mine', IsNode-carried n v same there)
  Ok-carried u (push_loaded n v h) f (mine, there) =
      let (mine', same) = f.keeps n 0 mine in (mine', same ∙ there)
  Ok-carried u (pop_loaded p c) f (le, at_head) =
      let grows = f.grows in
      (
        omega arith,
        λ e.
            let (e', same) = still c grows le e in ap (λ h. h.ptr) (f.head_stays same) ∙ at_head e',
      )
  Ok-carried u (pop_read p c after) f (le, at_head) =
      let grows = f.grows in
      (
        omega arith,
        λ e.
            let (e', same) = still c grows le e in
            let (first, v, there) = at_head e' in
            (ap (λ h. h.ptr) (f.head_stays same) ∙ first, v, f.node_stays p same first ∙ there),
      )
  Ok-carried u (popped p taken) f (mine, v, e, there) =
      let (mine', same) = f.keeps p 0 mine in (mine', v, e, IsNode-carried p v same there)
  Ok-carried u inserted f h = h
  Ok-carried u (returning res taken) f e = e
  Ok-carried u (release_loaded h) f k = k
  Ok-carried u (reset_inserts ptr left) f c =
      Chain-carried (held u) left ptr (λ a k l. f.keeps a k) c
  Ok-carried u (reset_pops ptr left) f c = Chain-carried (held u) left ptr (λ a k l. f.keeps a k) c
  Ok-carried u (releasing ptr left) f c = Chain-carried (held u) left ptr (λ a k l. f.keeps a k) c

  -- A change at one address
  pub record IsLocal (n : ℕ) : Type 0 where
    pub elsewhere : (a : ℕ) → a ≢ n → (owner' a ≡ owner a) × (s'.heap a ≡ s.heap a)

  pub IsLocal-keeps :
      (n : ℕ) (o : Owner)
      → IsLocal n
      → owner n ≢ o
      → (a : ℕ) → owner a ≡ o
      → (owner' a ≡ o) × (s'.heap a ≡ s.heap a)
  IsLocal-keeps n o local other a e =
      let ne : a ≢ n = λ same. other (ap owner (sym same) ∙ e) in
      let (mine, kept) = local.elsewhere a ne in (mine ∙ e, kept)

module _ {A : Type 0} where
  -- The head of a list that is not empty stands in it.
  pub record IsFirst (s : Shared A) (owner : ℕ → Owner) (p : ℕ) : Type 0 where
    pub first : A
    pub rest : List A
    pub after : Option ℕ
    pub stack_eq : s.stack ≡ first ∷ rest
    pub is_there : s.heap p ≡ some (record { val = first; next = after })
    pub is_listed : owner p ≡ listed (length rest)
    pub chain : Chain s.heap owner listed after rest

  first_of :
      (s : Shared A) (owner : ℕ → Owner) (p : ℕ) (xs : List A)
      → s.stack ≡ xs
      → Chain s.heap owner listed s.head.ptr xs
      → s.head.ptr ≡ some p
      → IsFirst s owner p
  first_of s owner p [] e c h = absurd (some-ne-none p (sym h ∙ c))
  first_of s owner p (x ∷ xs) e (q, after, e', there, mine, c) h =
      let same : q ≡ p = some-injective q p (sym e' ∙ h) in
      record {
        first = x;
        rest = xs;
        after = after;
        stack_eq = e;
        is_there = ap s.heap (sym same) ∙ there;
        is_listed = ap owner (sym same) ∙ mine;
        chain = c;
      }

  pub first :
      (s : Shared A) (owner : ℕ → Owner) (p : ℕ)
      → Chain s.heap owner listed s.head.ptr s.stack
      → s.head.ptr ≡ some p
      → IsFirst s owner p
  first s owner p c h = first_of s owner p s.stack refl c h
