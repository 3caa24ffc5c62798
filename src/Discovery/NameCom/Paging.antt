-- ===== src/Discovery/NameCom/Paging.antt =====
-- The loops over the pages of name.com end: page numbers grow, and a listing that names no page
-- beyond a last one takes at most as many rounds.
use auto_cert.Base.{
  ◌≡◌, ap, ◌∙◌, ℕ, zero, suc, ◌+◌, ◌≤◌, ◌<◌, some, List, ◌++◌, arith, inl, inr, Option-cases,
}
use auto_cert.Base.Int.{ℤ, pos, negsuc}
use auto_cert.Base.Text.{Text}
use auto_cert.Base.Result.{Result, ok, err, Result-cases}
use auto_cert.Discovery.NameCom.{next_of, pages_from}

-- No page names a next page beyond the last.
abbrev pub IsBounded : (ℕ → Result (List Text × ℤ)) → ℕ → Type 0
IsBounded fetch last =
    (current : ℕ) (here : List Text) (n : ℕ) → fetch current ≡ ok (here, pos n) → n ≤ last

next_of-grows :
    (current : ℕ) (next : ℤ) {n : ℕ}
    → next_of current next ≡ some n
    → (next ≡ pos n) × (current < n)
next_of-grows current (pos m) h = ground arith
next_of-grows current (negsuc m) h = cc

-- Whatever the pages hold, the loop comes to an end within as many rounds as there are pages left.
pub pages_from_ends :
    (fetch : ℕ → Result (List Text × ℤ)) (last fuel : ℕ) (all : List Text) (current : ℕ)
    → IsBounded fetch last
    → current ≤ last + 1
    → last + 1 < fuel + current
    → (r : Result (List Text)) × (pages_from fetch fuel all current ≡ some r)
pages_from_ends fetch last zero all current b low enough = absurd (omega arith)
pages_from_ends fetch last (suc fuel) all current b low enough =
    elim (Result-cases (fetch current)) [
      | inr (e, h) ↦ (err e, rw (h, pages_from))
      | inl ((here, next), h) ↦ elim (Option-cases (next_of current next)) [
        | inl stop ↦ (ok (all ++ here), rw (h, pages_from) (rw stop))
        | inr (n, go) ↦
            let (at, grows) = next_of-grows current next go in
            let within = b current here n (h ∙ ap (λ m. ok (here, m)) at) in
            let (r, ends) =
              pages_from_ends fetch last fuel (all ++ here) n b (omega arith) (omega arith) in
            (r, rw (h, pages_from) (rw go ends))
      ]
    ]
