-- ===== src/Github/Webhook/Pages.antt =====
-- internal/github/handlers.go: the loop of `checkPRAffectsGo` over the pages of a pull request.
use gopherci.Common.{
  ℕ, suc, Bool, true, false, ◌||◌, ◌≡◌, refl, List, [], ◌∷◌, ◌++◌, Bytes, ok, Go, any, ◌==◌, nat_eq,
  nat_beq,
}
use native.Mathlib.Omega.{arith}
use gopherci.Github.{Config, World, Call, History, list_files}
use gopherci.Github.Webhook.{Finished, finished, is_go_file, after_page, pages_affect_go}

-- From page `page` on, GitHub has at most `fuel` pages, which name these files in all.
pub data Pages (world : World) : (fuel page : ℕ) → List Bytes → Type 0 where
  last :
      (fuel page : ℕ) (names : List Bytes)
      → ((h : History) → world.files h page ≡ ok (names, 0))
      → Pages world (suc fuel) page names
  more :
      (fuel page next : ℕ) (names rest : List Bytes)
      → ((h : History) → world.files h page ≡ ok (names, suc next))
      → Pages world fuel (suc next) rest
      → Pages world (suc fuel) page (names ++ rest)

any-append : (p : Bytes → Bool) (xs ys : List Bytes) → any p (xs ++ ys) ≡ any p xs || any p ys
unfolding any
any-append p [] ys = refl
any-append p (x ∷ xs) ys = ground (arith, any-append p xs ys)

after_last :
    (found : Bool) (rest : Go Call (Finished Bool)) (h : History)
    → (after_page found true rest h).0 ≡ ok (finished found)
after_last true rest h = refl
after_last false rest h = refl

nat_beq-suc : (n : ℕ) → nat_beq (suc n) 0 ≡ false
nat_beq-suc n = ground arith

after_more :
    (found later stop : Bool)
    → stop ≡ false
    → (rest : Go Call (Finished Bool)) (h : History) → (rest h).0 ≡ ok (finished later)
    → (after_page found stop rest h).0 ≡ ok (finished (found || later))
after_more true later stop on rest h q = refl
after_more false later stop on rest h q = rw on q

module _ (config : Config) (world : World) (owner repo : Bytes) (number : ℕ) where
  -- If the pages of a pull request's files end, and there are no more of them than fuel, then the
  -- loop ends, without an error: it says whether any of all files is one that matters to Go.
  pub pages_affect_go_lem :
      (fuel page : ℕ) (names : List Bytes) (h : History)
      → Pages world fuel page names
      → (pages_affect_go config world owner repo number fuel page h).0
        ≡ ok (finished (any is_go_file names))
  unfolding pages_affect_go
  pages_affect_go_lem _ _ _ h (last fuel page names q) =
      rw (q h) (after_last (any is_go_file names) _ _)
  pages_affect_go_lem _ _ _ h (more fuel page next names rest q pages) =
      let h' = list_files owner repo number page ∷ h in
      rw (q h, any-append is_go_file names rest)
        (after_more (any is_go_file names) (any is_go_file rest) (suc next == 0) (nat_beq-suc next)
          _ h' (pages_affect_go_lem fuel (suc next) rest h' pages))
