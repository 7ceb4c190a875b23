-- ===== src/Github/Webhook/Affects.antt =====
-- internal/github/handlers.go: which files of a push `checkPushAffectsGo` looks for.
use gopherci.Common.{
  ◌≡◌, inl, inr, ◌⊎◌, true, List, [], ◌∷◌, ◌++◌, Bytes, lit, any, Some, any-Some, Bool-cases,
  has_suffix-split, bytes_beq_iff, arith, ◌||◌, Bool,
}
use gopherci.Github.{Commit}
use gopherci.Github.Webhook.{is_go_file, has_go_extension, check_push_affects_go, config_filename}

-- The file of the configuration, or one whose name ends in .go.
abbrev pub IsRelevant : Bytes → Type 0
IsRelevant file = ((stem : Bytes) × (file ≡ stem ++ lit ".go")) ⊎ (file ≡ lit ".gopherci.yml")

-- Such a file was modified, added or removed by some commit.
abbrev pub Affects : List Commit → Type 0
Affects commits =
    Some (λ c. Some IsRelevant c.modified ⊎ (Some IsRelevant c.added ⊎ Some IsRelevant c.removed))
      commits

or-Either : {P Q : Type 0} (a b : Bool) → (a ≡ true → P) → (b ≡ true → Q) → (a || b) ≡ true → P ⊎ Q
or-Either a b p q h = elim (Bool-cases a) [ inl e ↦ inl (p e) | inr e ↦ inr (q (rw e at h)) ]

is_go_file-IsRelevant : (file : Bytes) → is_go_file file ≡ true → IsRelevant file
unfolding is_go_file has_go_extension config_filename lit
is_go_file-IsRelevant file =
    or-Either _ _ (has_suffix-split file (lit ".go")) ((bytes_beq_iff file config_filename).0)

any-IsRelevant : (files : List Bytes) → any is_go_file files ≡ true → Some IsRelevant files
any-IsRelevant = any-Some is_go_file IsRelevant is_go_file-IsRelevant

pub check_push_affects_go-Affects :
    (commits : List Commit) → check_push_affects_go commits ≡ true → Affects commits
unfolding check_push_affects_go
check_push_affects_go-Affects (c ∷ commits) =
    or-Either _ _
      (or-Either _ _ (any-IsRelevant c.modified)
        (or-Either _ _ (any-IsRelevant c.added) (any-IsRelevant c.removed)))
      (check_push_affects_go-Affects commits)
check_push_affects_go-Affects [] = λ h. ground arith
