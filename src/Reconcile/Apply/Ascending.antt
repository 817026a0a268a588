-- ===== src/Reconcile/Apply/Ascending.antt =====
-- internal/reconcile/applytx.go: groups that are sorted by the names of their targets.
use pg_noty.Base.{
  ◌≡◌, refl, sym, ◌∙◌, subst, inl, inr, Bool, true, false, ◌||◌, List, [], ◌∷◌, map, arith, Text,
  text_eq, text_eq_iff, text_eq_comm, text_lt, text_lt_trans, text_lt_total, text_lt_irrefl,
  sort_by, insert_by, All-insert_by, any-sort_by, any, All, All-map, Bool-cases,
}
use pg_noty.Reconcile.Apply.{ApplyObject, ApplyGroup, add_object, group_le}

abbrev pub names : List ApplyGroup → List Text
names = map (λ g. g.name)

abbrev pub is_grouped : Text → List ApplyGroup → Bool
is_grouped name = any (λ g. text_eq name g.name)

-- The names of groups strictly ascend, so that no target has two of them.
abbrev pub Ascending : List ApplyGroup → Type 0
Ascending [] = Unit
Ascending (g ∷ gs) = All (λ h. text_lt g.name h.name ≡ true) gs × Ascending gs

abbrev pub Distinct : List ApplyGroup → Type 0
Distinct [] = Unit
Distinct (g ∷ gs) = (is_grouped g.name gs ≡ false) × Distinct gs

text_eq_refl : (s : Text) → text_eq s s ≡ true
text_eq_refl s = (text_eq_iff s s).1 refl

pub add_object-is_grouped :
    (name : Text) (object : ApplyObject) (t : Text) (gs : List ApplyGroup)
    → is_grouped t (add_object name object gs) ≡ (text_eq t name || is_grouped t gs)
unfolding add_object
add_object-is_grouped name object t [] = refl
add_object-is_grouped name object t (g ∷ gs) = elim (Bool-cases (text_eq g.name name)) [
  | inl e ↦
      let same = (text_eq_iff g.name name).0 e in
      rw e (
        subst
          (λ n.
            (text_eq t g.name || is_grouped t gs)
            ≡ (text_eq t n || (text_eq t g.name || is_grouped t gs)))
          same (ground arith))
  | inr e ↦ rw (e, add_object-is_grouped name object t gs) (ground arith)
]

pub add_object-Distinct :
    (name : Text) (object : ApplyObject) (gs : List ApplyGroup)
    → Distinct gs
    → Distinct (add_object name object gs)
unfolding add_object
add_object-Distinct name object [] d = (refl, tt)
add_object-Distinct name object (g ∷ gs) d = elim (Bool-cases (text_eq g.name name)) [
  | inl e ↦ rw e d
  | inr e ↦ rw e (
    add_object-is_grouped name object g.name gs ∙ ground arith,
    add_object-Distinct name object gs d.1,
  )
]

All-lt_trans :
    (x y : Text) (gs : List ApplyGroup)
    → text_lt x y ≡ true
    → All (λ h. text_lt y h.name ≡ true) gs
    → All (λ h. text_lt x h.name ≡ true) gs
All-lt_trans x y gs h =
    All-map (λ g. text_lt y g.name ≡ true) (λ g. text_lt x g.name ≡ true) gs
      (λ g k. text_lt_trans x y g.name h k)

insert_by-Ascending :
    (g : ApplyGroup) (gs : List ApplyGroup)
    → is_grouped g.name gs ≡ false
    → Ascending gs
    → Ascending (insert_by group_le g gs)
insert_by-Ascending g [] new a = (tt, tt)
insert_by-Ascending g (h ∷ gs) new a = elim (Bool-cases (text_lt h.name g.name)) [
  | inl e ↦ rw e (
    All-insert_by group_le (λ k. text_lt h.name k.name ≡ true) g gs e a.0,
    insert_by-Ascending g gs (ground arith) a.1,
  )
  | inr e ↦
      let other = text_eq_comm h.name g.name ∙ ground arith in
      let below = text_lt_total h.name g.name e other in
      rw e ((below, All-lt_trans g.name h.name gs below a.0), a)
]

pub sort_by-Ascending : (gs : List ApplyGroup) → Distinct gs → Ascending (sort_by group_le gs)
sort_by-Ascending [] d = tt
sort_by-Ascending (g ∷ gs) d =
    insert_by-Ascending g (sort_by group_le gs)
      (any-sort_by group_le (λ h. text_eq g.name h.name) gs ∙ d.0) (sort_by-Ascending gs d.1)

-- Nothing is among names that are all above it.
not_below_own :
    (t : Text) (gs : List ApplyGroup)
    → All (λ h. text_lt t h.name ≡ true) gs
    → is_grouped t gs ≡ false
not_below_own t [] a = refl
not_below_own t (g ∷ gs) a = elim (Bool-cases (text_eq t g.name)) [
  | inl e ↦ absurd (
      cc (subst (λ n. text_lt t n ≡ true) (sym ((text_eq_iff t g.name).0 e)) a.0, text_lt_irrefl t))
  | inr e ↦ rw e (not_below_own t gs a.1)
]

below_grouped :
    (t u : Text) (gs : List ApplyGroup)
    → All (λ h. text_lt u h.name ≡ true) gs
    → is_grouped t gs ≡ true
    → text_lt u t ≡ true
below_grouped t u [] a m = absurd (cc)
below_grouped t u (g ∷ gs) a m = elim (Bool-cases (text_eq t g.name)) [
  | inl e ↦ subst (λ n. text_lt u n ≡ true) (sym ((text_eq_iff t g.name).0 e)) a.0
  | inr e ↦ below_grouped t u gs a.1 (ground arith)
]

-- A head that the other list has too is not above the other head.
heads_eq :
    (g h : ApplyGroup) (gs hs : List ApplyGroup)
    → Ascending (g ∷ gs)
    → Ascending (h ∷ hs)
    → ((t : Text) → is_grouped t (g ∷ gs) ≡ is_grouped t (h ∷ hs))
    → g.name ≡ h.name
heads_eq g h gs hs a b same = elim (Bool-cases (text_eq g.name h.name)) [
  | inl e ↦ (text_eq_iff g.name h.name).0 e
  | inr e ↦
      let own_g = text_eq_refl g.name in
      let own_h = text_eq_refl h.name in
      let other = text_eq_comm h.name g.name in
      let in_hs : is_grouped g.name hs ≡ true = ground (arith, same g.name) in
      let in_gs : is_grouped h.name gs ≡ true = ground (arith, same h.name) in
      let under = below_grouped g.name h.name hs b.0 in_hs in
      let over = below_grouped h.name g.name gs a.0 in_gs in
      absurd (cc (text_lt_trans g.name h.name g.name over under, text_lt_irrefl g.name))
]

-- Two ascending lists with the same names are in the same order.
pub Ascending-names :
    (gs hs : List ApplyGroup)
    → Ascending gs
    → Ascending hs
    → ((t : Text) → is_grouped t gs ≡ is_grouped t hs)
    → names gs ≡ names hs
Ascending-names [] [] a b same = refl
Ascending-names [] (h ∷ hs) a b same = absurd (cc (same h.name, text_eq_refl h.name))
Ascending-names (g ∷ gs) [] a b same = absurd (cc (same g.name, text_eq_refl g.name))
Ascending-names (g ∷ gs) (h ∷ hs) a b same =
    let e = heads_eq g h gs hs a b same in
    let none_g = not_below_own g.name gs a.0 in
    let none_h = subst (λ n. is_grouped n hs ≡ false) (sym e) (not_below_own h.name hs b.0) in
    let rest : (t : Text) → is_grouped t gs ≡ is_grouped t hs = λ t.
      elim (Bool-cases (text_eq t g.name)) [
        | inl f ↦
            subst (λ n. is_grouped n gs ≡ is_grouped n hs) (sym ((text_eq_iff t g.name).0 f))
              (none_g ∙ sym none_h)
        | inr f ↦ let f' = subst (λ n. text_eq t n ≡ false) e f in ground (arith, same t)
      ] in
    rw (e, Ascending-names gs hs a.1 b.1 rest) refl
