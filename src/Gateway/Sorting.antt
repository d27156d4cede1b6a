-- ===== src/Gateway/Sorting.antt =====
-- internal/gateway/router.go: the stable sort of NewRouter.
use mathlib.Core.List.Permᴰ
use decision_gateway.Prelude.{
  ℕ, ◌≤◌, ◌≡◌, refl, inl, inr, List, [], ◌∷◌, Permᴰ, arith, leb, ◌==◌, leb_iff, Bool-cases, length,
  keep, Memᴰ-perm, All, All-mem, All-of_mem,
}
use decision_gateway.Gateway.{Route, insert_route, sort_routes}

-- No route stands before a longer one.
abbrev pub IsDescending : List Route → Type 0
IsDescending [] = Unit
IsDescending (r ∷ rs) = All (λ s. length s.prefix ≤ length r.prefix) rs × IsDescending rs

pub insert_route-perm : (r : Route) (rs : List Route) → Permᴰ (insert_route r rs) (r ∷ rs)
unfolding insert_route
insert_route-perm r [] = Permᴰ.refl _
insert_route-perm r (s ∷ rs) = elim (Bool-cases (leb (length s.prefix) (length r.prefix))) [
  | inl h ↦ rw h (Permᴰ.refl _)
  | inr h ↦ rw h (Permᴰ.trans (Permᴰ.cons refl (insert_route-perm r rs)) (Permᴰ.swap refl refl))
]

pub sort_routes-perm : (rs : List Route) → Permᴰ (sort_routes rs) rs
unfolding sort_routes
sort_routes-perm [] = Permᴰ.nil
sort_routes-perm (r ∷ rs) =
    Permᴰ.trans (insert_route-perm r (sort_routes rs)) (Permᴰ.cons refl (sort_routes-perm rs))

pub All-perm {κ} : (P : Route → Type κ) {l r : List Route} → Permᴰ l r → All P r → All P l
All-perm P {l} p h = All-of_mem P l (λ a m. All-mem P h (Memᴰ-perm p m))

All-le_trans :
    (m n : ℕ) (rs : List Route)
    → m ≤ n
    → All (λ s. length s.prefix ≤ m) rs
    → All (λ s. length s.prefix ≤ n) rs
All-le_trans m n [] h a = tt
All-le_trans m n (r ∷ rs) h a = (omega arith, All-le_trans m n rs h a.1)

insert_route-IsDescending :
    (r : Route) (rs : List Route) → IsDescending rs → IsDescending (insert_route r rs)
unfolding insert_route
insert_route-IsDescending r [] d = (tt, tt)
insert_route-IsDescending r (s ∷ rs) d =
    elim (Bool-cases (leb (length s.prefix) (length r.prefix))) [
      | inl h ↦
          let le = (leb_iff _ _).0 h in
          rw h ((le, All-le_trans (length s.prefix) (length r.prefix) rs le d.0), d)
      | inr h ↦ rw h (
        All-perm (λ q. length q.prefix ≤ length s.prefix) (insert_route-perm r rs)
            (ground arith, d.0),
        insert_route-IsDescending r rs d.1,
      )
    ]

pub sort_routes-IsDescending : (rs : List Route) → IsDescending (sort_routes rs)
unfolding sort_routes
sort_routes-IsDescending [] = tt
sort_routes-IsDescending (r ∷ rs) =
    insert_route-IsDescending r (sort_routes rs) (sort_routes-IsDescending rs)

-- The routes whose prefix has a given length, in order.
abbrev pub of_length : ℕ → List Route → List Route
of_length n = keep (λ r. length r.prefix == n)

of_length-insert_route :
    (n : ℕ) (r : Route) (rs : List Route) → of_length n (insert_route r rs) ≡ of_length n (r ∷ rs)
unfolding insert_route
of_length-insert_route n r [] = refl
of_length-insert_route n r (s ∷ rs) = ground (arith, of_length-insert_route n r rs)

pub of_length-sort_routes :
    (n : ℕ) (rs : List Route) → of_length n (sort_routes rs) ≡ of_length n rs
unfolding sort_routes
of_length-sort_routes n [] = refl
of_length-sort_routes n (r ∷ rs) =
    rw (of_length-insert_route n r (sort_routes rs), of_length-sort_routes n rs)
