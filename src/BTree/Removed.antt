-- ===== src/BTree/Removed.antt =====
-- `remove_from` of include/txl/btree.h takes a key out of the entries.
use libtxl.Prelude.{
  ℕ, suc, ◌≤◌, ◌<◌, ◌≡◌, true, false, Bool-cases, inl, inr, refl, sym, ap, List, [], ◌∷◌,
  append-nil, length, size_mod,
}
use libtxl.BTree.Key.{Key}
use libtxl.BTree.Sorted.{All-append, Below, Below-trans, IsSorted, IsSorted-Parts}
use libtxl.BTree.Defs.{Node, node, Children, nil, child, values}
use libtxl.BTree.Entries.{entries, weave, IsFormed, leaf, inner, AreFormed, last, more}
use libtxl.BTree.Find.{weave-AllNull}
use libtxl.BTree.Zipper.{flat}
use libtxl.BTree.Focus.{Removed, leaf-Removed, FocusMid, Focus, mid, end}
use libtxl.BTree.RemovedMid.{mid-Removed}
use libtxl.BTree.RemovedEnd.{end-Removed}

module _ {K V : Type 0} (o : Key K) (degree : ℕ) (wide : 3 ≤ degree) (narrow : degree < size_mod)
    (k : K) where
  open o use {less, equal}

  -- The child behind one that is not the last
  next_child :
      (h margin : ℕ) (n : Node K V) (v : K × V) (cs : Children K V) (vs : List (K × V))
      → AreFormed h margin cs vs
      → IsFormed h 1 n
      → 1 ≤ length (values n)
      → less v.0 k ≡ false
      → Removed o degree k h 1 n
      → FocusMid o degree k h margin (child n cs) (v ∷ vs)
  unfolding flat
  next_child h margin n v cs vs (last _ _ next f big) fn bn stop c = record {
    ps = [];
    n = n;
    v = v;
    next = next;
    rest = nil;
    ws = [];
    last_margin = margin;
    children_eq = refl;
    values_eq = refl;
    pre = tt;
    formed = fn;
    big = bn;
    formed_next = f;
    big_next = big;
    tail = last h margin;
    low = tt;
    stop = stop;
    inside = c;
  }
  next_child h margin n v cs vs (more _ _ next ds w ws f big fs) fn bn stop c = record {
    ps = [];
    n = n;
    v = v;
    next = next;
    rest = ds;
    ws = w ∷ ws;
    last_margin = 1;
    children_eq = refl;
    values_eq = refl;
    pre = tt;
    formed = fn;
    big = bn;
    formed_next = f;
    big_next = big;
    tail = λ m g b. more h margin m ds w ws g b fs;
    low = tt;
    stop = stop;
    inside = c;
  }

  -- A child in front
  further :
      (h margin : ℕ) (n : Node K V) (v : K × V) (cs : Children K V) (vs : List (K × V))
      → IsFormed h 1 n
      → 1 ≤ length (values n)
      → Below o k (entries n)
      → less v.0 k ≡ true
      → Focus o degree k h margin cs vs
      → Focus o degree k h margin (child n cs) (v ∷ vs)
  unfolding flat
  further h margin n v cs vs f big low p (mid x) = mid (record {
    ps = (n, v) ∷ x.ps;
    n = x.n;
    v = x.v;
    next = x.next;
    rest = x.rest;
    ws = x.ws;
    last_margin = x.last_margin;
    children_eq = ap (λ ds. child n ds) x.children_eq;
    values_eq = ap (λ us. v ∷ us) x.values_eq;
    pre = (f, big, x.pre);
    formed = x.formed;
    big = x.big;
    formed_next = x.formed_next;
    big_next = x.big_next;
    tail = x.tail;
    low = All-append (λ e. less e.0 k ≡ true) (entries n) (v ∷ flat x.ps) low (p, x.low);
    stop = x.stop;
    inside = x.inside;
  })
  further h margin n v cs vs f big low p (end x) = end (record {
    ps = (n, v) ∷ x.ps;
    n = x.n;
    children_eq = ap (λ ds. child n ds) x.children_eq;
    values_eq = ap (λ us. v ∷ us) x.values_eq;
    pre = (f, big, x.pre);
    formed = x.formed;
    big = x.big;
    low = All-append (λ e. less e.0 k ≡ true) (entries n) (v ∷ flat x.ps) low (p, x.low);
    inside = x.inside;
  })

  Focus-Removed :
      (h margin : ℕ) (m : Node K V) (cs : Children K V) (vs : List (K × V))
      → AreFormed h margin (child m cs) vs
      → IsSorted o (weave (child m cs) vs)
      → 1 ≤ length vs
      → Focus o degree k h margin (child m cs) vs
      → Removed o degree k (suc h) margin (node (child m cs) vs)
  Focus-Removed h margin m cs vs f s big (mid x) =
      mid-Removed o degree wide narrow k h margin m cs vs x f s big
  Focus-Removed h margin m cs vs f s big (end x) =
      end-Removed o degree wide narrow k h margin m cs vs x f s big

  mutual
    unfolding entries flat

    node-Removed :
        (h margin : ℕ) (n : Node K V)
        → IsFormed h margin n
        → 1 ≤ length (values n)
        → IsSorted o (entries n)
        → Removed o degree k h margin n
    node-Removed h margin n (leaf _ cs vs g room) big s =
        leaf-Removed o degree k margin cs vs g room (rw (sym (weave-AllNull cs vs g)) s)
    node-Removed h margin n (inner g _ m cs vs f) big s =
        Focus-Removed g margin m cs vs f s big (child-Focus g margin (child m cs) vs f s)

    child-Focus :
        (h margin : ℕ) (cs : Children K V) (vs : List (K × V))
        → AreFormed h margin cs vs
        → IsSorted o (weave cs vs)
        → Focus o degree k h margin cs vs
    child-Focus h margin cs vs (last _ _ n f big) s = end (record {
      ps = [];
      n = n;
      children_eq = refl;
      values_eq = refl;
      pre = tt;
      formed = f;
      big = big;
      low = tt;
      inside = node-Removed h margin n f big (rw (sym (append-nil (entries n))) s);
    })
    child-Focus h margin cs vs (more _ _ n ds v ws f big fs) s =
        let p = IsSorted-Parts o (entries n) v (weave ds ws) s in
        elim (Bool-cases (less v.0 k)) [
          | inl l ↦
              further h margin n v ds ws f big (Below-trans o v.0 k (entries n) l p.below) l
                (child-Focus h margin ds ws fs p.right)
          | inr l ↦ mid (next_child h margin n v ds ws fs f big l (node-Removed h 1 n f big p.left))
        ]

  pub remove_from-Removed :
      (h margin : ℕ) (n : Node K V)
      → IsFormed h margin n
      → 1 ≤ length (values n)
      → IsSorted o (entries n)
      → Removed o degree k h margin n
  remove_from-Removed h margin n f big s = node-Removed h margin n f big s
