-- ===== src/Router/Unambiguous.antt =====
-- The routes of src/router.rs as a whole: none is in another's way, and where the links of the error
-- answers lead.
use text.Mathlib.Text.{◌==◌ as str_eq}
use text.Mathlib.TextEquality.{eq_iff}
use mathlib.Core.Path.{sym}
use pactum_codex.Base.{
  String, ◌≡◌, ◌≤◌, ◌∙◌, refl, arith, Bool, true, false, ◌&&◌, not, none, List, [], ◌∷◌, map, find,
  all, count_where, Bool-cases, inl, inr,
}
use pactum_codex.Router.{
  PathMatcher, Method, Segment, Route, Fits, same_method, build_router, answers,
}

-- Some path has the form of both patterns.
abbrev pub overlap : List Segment → List Segment → Bool
overlap [] [] = true
overlap [] (_ ∷ _) = false
overlap (_ ∷ _) [] = false
overlap (Segment.lit s ∷ ps) (Segment.lit t ∷ qs) = str_eq s t && overlap ps qs
overlap (Segment.lit s ∷ ps) (Segment.any ∷ qs) = overlap ps qs
overlap (Segment.any ∷ ps) (_ ∷ qs) = overlap ps qs

overlap-Fits :
    (ps qs : List Segment) (path : List String) → Fits ps path → Fits qs path → overlap ps qs ≡ true
overlap-Fits [] [] path f g = refl
overlap-Fits [] (_ ∷ _) [] f g = absurd g
overlap-Fits [] (_ ∷ _) (_ ∷ _) f g = absurd f
overlap-Fits (_ ∷ _) [] [] f g = absurd f
overlap-Fits (_ ∷ _) [] (_ ∷ _) f g = absurd g
overlap-Fits (_ ∷ _) (_ ∷ _) [] f g = absurd f
overlap-Fits (Segment.lit s ∷ ps) (Segment.lit t ∷ qs) (x ∷ path) f g =
    rw ((eq_iff s t).1 (f.0 ∙ sym g.0)) (overlap-Fits ps qs path f.1 g.1)
overlap-Fits (Segment.lit s ∷ ps) (Segment.any ∷ qs) (x ∷ path) f g = overlap-Fits ps qs path f.1 g
overlap-Fits (Segment.any ∷ ps) (Segment.lit t ∷ qs) (x ∷ path) f g = overlap-Fits ps qs path f g.1
overlap-Fits (Segment.any ∷ ps) (Segment.any ∷ qs) (x ∷ path) f g = overlap-Fits ps qs path f g

-- axum refuses to build a router with two such routes.
abbrev pub clashes : Route → Route → Bool
clashes r r' = same_method r.method r'.method && overlap r.path r'.path

abbrev pub is_unambiguous : List Route → Bool
is_unambiguous [] = true
is_unambiguous (r ∷ rs) = all (λ r'. not (clashes r r')) rs && is_unambiguous rs

unambiguous_routes : is_unambiguous build_router ≡ true
unambiguous_routes = refl

method_of :
    (m n k : Method) → same_method k m ≡ true → same_method k n ≡ true → same_method m n ≡ true
method_of m n Method.get a b = ground (arith, a, b)
method_of m n Method.post a b = ground (arith, a, b)
method_of m n Method.put a b = ground (arith, a, b)
method_of m n Method.delete a b = ground (arith, a, b)

module _ (axum : PathMatcher) (method : Method) (path : List String) where
  answers-clashes :
      (r r' : Route)
      → answers axum method path r ≡ true
      → answers axum method path r' ≡ true
      → clashes r r' ≡ true
  answers-clashes r r' a b =
      let fit =
        overlap-Fits r.path r'.path path (axum.fits-Fits r.path path (ground (arith, a)))
          (axum.fits-Fits r'.path path (ground (arith, b))) in
      let same = method_of r.method r'.method method (ground (arith, a)) (ground (arith, b)) in
      ground (arith, fit, same)

  none_besides :
      (r : Route) (rs : List Route)
      → answers axum method path r ≡ true
      → all (λ r'. not (clashes r r')) rs ≡ true
      → count_where (answers axum method path) rs ≡ 0
  none_besides r [] a apart = refl
  none_besides r (r' ∷ rs) a apart = elim (Bool-cases (answers axum method path r')) [
    | inl also ↦ absurd (ground (arith, answers-clashes r r' a also))
    | inr other ↦ rw other (none_besides r rs a (ground arith))
  ]

  answers_once :
      (rs : List Route) → is_unambiguous rs ≡ true → count_where (answers axum method path) rs ≤ 1
  answers_once [] u = omega arith
  answers_once (r ∷ rs) u = elim (Bool-cases (answers axum method path r)) [
    | inl this ↦ rw (this, none_besides r rs this (ground arith)) (omega arith)
    | inr other ↦ rw other (answers_once rs (ground arith))
  ]

  -- At most one route of the router answers a request, whatever its method and its path.
  pub count_where-build_router : count_where (answers axum method path) build_router ≤ 1
  count_where-build_router = answers_once build_router unambiguous_routes

  -- No route has the form of the path.
  pub unfit :
      (rs : List Route)
      → all (λ r. not (overlap r.path (map Segment.lit path))) rs ≡ true
      → find (answers axum method path) rs ≡ none
  unfit [] u = refl
  unfit (r ∷ rs) u = elim (Bool-cases (answers axum method path r)) [
    | inl this ↦ absurd (
        ground (
          arith,
          overlap-Fits r.path (map Segment.lit path) path
              (axum.fits-Fits r.path path (ground (arith, this)))
              (axum.fits-Fits (map Segment.lit path) path (axum.fits_self path)),
        ))
    | inr other ↦ rw other (unfit rs (ground arith))
  ]
