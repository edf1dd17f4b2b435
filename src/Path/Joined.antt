-- ===== src/Path/Joined.antt =====
-- The text that the components of a stack are joined to.
use libbutl.Prelude.{
  Bool, true, false, List, [], ◌∷◌, ◌++◌, ◌≡◌, refl, sym, ap, ◌∙◌, Bytes, is_empty, All,
  append_assoc, arith, reverse,
}
use mathlib.Core.List.{reverse-cons}
use libbutl.Path.Traits.{absolute, ends_with_separator}
use libbutl.Path.Normalize.{join, ends_special, is_special}
use libbutl.Path.Collapse.{stack_ok}
use libbutl.Path.Split.{IsName}

reverse-first :
    (abs : Bool) (d : Bytes) (t : List Bytes)
    → stack_ok abs (d ∷ t) ≡ true
    → All IsName (d ∷ t)
    → (c : Bytes) × (cs : List Bytes) × (reverse (d ∷ t) ≡ c ∷ cs) × IsName c × (is_empty c ≡ abs)
reverse-first true d [] h n = (d, [], refl, n.0, ground (arith, h))
reverse-first false d [] h n = (d, [], refl, n.0, ground (arith, h))
reverse-first abs d (e ∷ t) h n =
    let (c, cs, p, x, y) = reverse-first abs e t (ground (arith, h)) (n.1) in
    (c, cs ++ d ∷ [], reverse-cons d (e ∷ t) ∙ ap (λ r. r ++ d ∷ []) p, x, y)

absolute-join_name :
    (c : Bytes) (cs : List Bytes)
    → IsName c
    → is_empty (join (c ∷ cs)) ≡ false
    → absolute (join (c ∷ cs)) ≡ is_empty c
unfolding join
absolute-join_name [] [] n f = cc
absolute-join_name [] (d ∷ cs) n f = refl
absolute-join_name (x ∷ c) [] n f = ground (arith, n)
absolute-join_name (x ∷ c) (d ∷ cs) n f = ground (arith, n)

pub absolute-join :
    (abs : Bool) (d : Bytes) (t : List Bytes)
    → stack_ok abs (d ∷ t) ≡ true
    → All IsName (d ∷ t)
    → is_empty (join (reverse (d ∷ t))) ≡ false
    → absolute (join (reverse (d ∷ t))) ≡ abs
absolute-join abs d t h n f =
    let (c, cs, p, x, y) = reverse-first abs d t h n in
    ap (λ r. absolute (join r)) p
    ∙ absolute-join_name c cs x (sym (ap (λ r. is_empty (join r)) p) ∙ f)
    ∙ y

pub ends_with-append_name :
    (a h : Bytes) → is_empty h ≡ false → IsName h → ends_with_separator (a ++ h) ≡ false
ends_with-append_name [] [] f n = cc
ends_with-append_name [] (c ∷ []) f n = ground (arith, n)
ends_with-append_name [] (c ∷ d ∷ h) f n = ends_with-append_name [] (d ∷ h) refl (ground (arith, n))
ends_with-append_name (x ∷ []) [] f n = cc
ends_with-append_name (x ∷ []) (c ∷ h) f n = ends_with-append_name [] (c ∷ h) f n
ends_with-append_name (x ∷ y ∷ a) h f n = ends_with-append_name (y ∷ a) h f n

-- The text that is joined ends with the last component.
join-snoc : (xs : List Bytes) (h : Bytes) → (a : Bytes) × (join (xs ++ h ∷ []) ≡ a ++ h)
unfolding join
join-snoc [] h = ([], refl)
join-snoc (x ∷ []) h = (x ++ b'/' ∷ [], sym (append_assoc x (b'/' ∷ []) h))
join-snoc (x ∷ y ∷ xs) h =
    let (a, e) = join-snoc (y ∷ xs) h in
    (x ++ b'/' ∷ a, ap (λ t. x ++ b'/' ∷ t) e ∙ sym (append_assoc x (b'/' ∷ a) h))

pub ends_with-join :
    (h : Bytes) (t : List Bytes)
    → is_empty h ≡ false
    → IsName h
    → ends_with_separator (join (reverse (h ∷ t))) ≡ false
ends_with-join h t f n =
    let (a, e) = join-snoc (reverse t) h in
    ap (λ r. ends_with_separator (join r)) (reverse-cons h t)
    ∙ ap ends_with_separator e
    ∙ ends_with-append_name a h f n

ends_special-snoc : (xs : List Bytes) (h : Bytes) → ends_special (xs ++ h ∷ []) ≡ is_special h
ends_special-snoc [] h = refl
ends_special-snoc (x ∷ []) h = refl
ends_special-snoc (x ∷ y ∷ xs) h = ends_special-snoc (y ∷ xs) h

pub ends_special-reverse :
    (h : Bytes) (t : List Bytes) → ends_special (reverse (h ∷ t)) ≡ is_special h
ends_special-reverse h t = ap ends_special (reverse-cons h t) ∙ ends_special-snoc (reverse t) h
