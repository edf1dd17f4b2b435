-- ===== src/Path/Append.antt =====
-- What a path denotes that is put together with `/`.
use libbutl.Prelude.{
  true, false, inl, inr, Option, none, some, List, [], ◌∷◌, ◌++◌, ◌≡◌, refl, sym, ap, ◌∙◌, Bytes,
  is_empty, Bool-cases,
}
use mathlib.Core.Path.{subst}
use libbutl.Path.Traits.{is_separator, absolute, root}
use libbutl.Path.Data.{BasicPath, path_of, absent, slash, in_path, TrailingSeparator}
use libbutl.Path.Operations.{append_path, combine_impl}
use libbutl.Path.Normalize.{components, components_loop}
use libbutl.Path.Shape.{IsPath}
use libbutl.Path.Parts.{root_is}
use libbutl.Path.Resolve.{Location, walk, resolve, resolve_full, enter, and_then, and_then_assoc}

components_loop-append :
    (o : Option Bytes) (x t : Bytes)
    → components_loop o (x ++ b'/' ∷ t) ≡ components_loop o x ++ components_loop none t
unfolding components_loop
components_loop-append none [] t = refl
components_loop-append (some p) [] t = refl
components_loop-append none (c ∷ x) t = elim (Bool-cases (is_separator c)) [
  | inl e ↦ rw e (components_loop-append none x t)
  | inr e ↦ rw e (components_loop-append (some (c ∷ [])) x t)
]
components_loop-append (some p) (c ∷ x) t = elim (Bool-cases (is_separator c)) [
  | inl e ↦ rw e (ap (λ z. p ∷ z) (components_loop-append none x t))
  | inr e ↦ rw e (components_loop-append (some (p ++ c ∷ [])) x t)
]

pub components-append :
    (x t : Bytes) → components (x ++ b'/' ∷ t) ≡ components x ++ components_loop none t
unfolding components
components-append x t = components_loop-append (some []) x t

pub and_then_same :
    (o : Option Location) (f g : Location → Option Location)
    → ((m : Location) → f m ≡ g m)
    → and_then o f ≡ and_then o g
and_then_same none f g h = refl
and_then_same (some m) f g h = h m

walk-append :
    (l : Location) (xs ys : List Bytes) → walk l (xs ++ ys) ≡ and_then (walk l xs) (λ m. walk m ys)
unfolding walk
walk-append l [] ys = refl
walk-append l (c ∷ xs) ys =
    and_then_same (enter l c) (λ m. walk m (xs ++ ys)) (λ m. and_then (walk m xs) (λ n. walk n ys))
      (λ m. walk-append m xs ys)
    ∙ sym (and_then_assoc (enter l c) (λ m. walk m xs) (λ m. walk m ys))

-- The components of a relative path, after a separator.
resolve_relative :
    (l : Location) (t : Bytes) → absolute t ≡ false → resolve l t ≡ walk l (components_loop none t)
unfolding resolve walk components components_loop
resolve_relative l [] h = refl
resolve_relative l (c ∷ t) h = rw h refl

pub walk-components_append :
    (l : Location) (x t : Bytes)
    → absolute t ≡ false
    → walk l (components (x ++ b'/' ∷ t)) ≡ and_then (walk l (components x)) (λ m. resolve m t)
walk-components_append l x t h =
    ap (walk l) (components-append x t)
    ∙ walk-append l (components x) (components_loop none t)
    ∙ and_then_same (walk l (components x)) (λ m. walk m (components_loop none t))
        (λ m. resolve m t) (λ m. sym (resolve_relative m t h))

pub full_append : (x t : Bytes) → is_empty (x ++ b'/' ∷ t) ≡ false
full_append [] t = refl
full_append (c ∷ x) t = refl

pub resolve-append_full :
    (l : Location) (x t : Bytes)
    → is_empty x ≡ false
    → absolute t ≡ false
    → resolve l (x ++ b'/' ∷ t) ≡ and_then (resolve l x) (λ m. resolve m t)
resolve-append_full l x t h a =
    resolve_full l (x ++ b'/' ∷ t) (full_append x t)
    ∙ walk-components_append l x t a
    ∙ ap (λ o. and_then o (λ m. resolve m t)) (sym (resolve_full l x h))

pub resolve-root :
    (l : Location) (s t : Bytes)
    → root s ≡ true
    → absolute t ≡ false
    → resolve l (s ++ t) ≡ and_then (resolve l s) (λ m. resolve m t)
unfolding resolve walk components components_loop
resolve-root l s t h a =
    subst (λ x. resolve l (x ++ t) ≡ and_then (resolve l x) (λ m. resolve m t)) (sym (root_is s h))
      (sym (resolve_relative [] t a))

resolve-combine_of :
    (l : Location) (s : Bytes) (u : TrailingSeparator) (r : BasicPath)
    → IsPath (path_of s u)
    → absolute r.path ≡ false
    → resolve l ((combine_impl (path_of s u) r).path)
      ≡ and_then (resolve l s) (λ m. resolve m r.path)
unfolding combine_impl resolve
resolve-combine_of l [] absent r v a = refl
resolve-combine_of l (c ∷ s) absent r v a = resolve-append_full l (c ∷ s) r.path refl a
resolve-combine_of l s slash r v a = resolve-append_full l s r.path v a
resolve-combine_of l s in_path r v a = resolve-root l s r.path v a

pub resolve-combine_impl :
    (l : Location) (d r : BasicPath)
    → IsPath d
    → absolute r.path ≡ false
    → resolve l ((combine_impl d r).path) ≡ and_then (resolve l d.path) (λ m. resolve m r.path)
resolve-combine_impl l d r = resolve-combine_of l d.path d.tsep r

pub and_then_stay :
    (o : Option Location) (s : Bytes) → is_empty s ≡ true → and_then o (λ m. resolve m s) ≡ o
unfolding resolve
and_then_stay none [] h = refl
and_then_stay (some m) [] h = refl
and_then_stay o (c ∷ s) h = cc

-- Appending a relative path succeeds, and the result denotes what the relative path denotes from
-- the location of the left side.
pub resolve-append_path :
    (d r : BasicPath)
    → IsPath d
    → absolute r.path ≡ false
    → (q : BasicPath) × (append_path d r ≡ inr q)
      × ((l : Location) → resolve l q.path ≡ and_then (resolve l d.path) (λ m. resolve m r.path))
unfolding append_path
resolve-append_path d r v a = elim (Bool-cases (is_empty r.path)) [
  | inl h ↦ (d, rw (a, h) refl, λ l. sym (and_then_stay (resolve l d.path) r.path h))
  | inr h ↦ (combine_impl d r, rw (a, h) refl, λ l. resolve-combine_impl l d r v a)
]
