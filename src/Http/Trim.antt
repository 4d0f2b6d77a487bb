-- ===== src/Http/Trim.antt =====
-- Texts without the white space around them (`trim`, in `backend/src/lib/validate.ts`).
use mathlib.Core.List.{reverse, reverse-append, reverse-reverse}
use demanage.Prelude.{ℕ, ◌≡◌, refl, ap, ◌∙◌, true, false, [], ◌∷◌, ◌++◌, All}
use demanage.Prelude.Lists.{All-snoc}
use demanage.CivilDate.Text.{Text}
use demanage.Http.{is_space, trim_start, trim}

-- Nothing but white space, and none of it.
abbrev pub IsBlank : Text → Type 0
IsBlank s = All (λ c. is_space c ≡ true) s

abbrev pub IsSolid : Text → Type 0
IsSolid s = All (λ c. is_space c ≡ false) s

All-reverse : (P : ℕ → Type 0) (s : Text) → All P s → All P (reverse s)
All-reverse P [] h = tt
All-reverse P (c ∷ s) h =
    rw (reverse-append (c ∷ []) s) (All-snoc P (reverse s) c (All-reverse P s h.1) h.0)

trim_start-blank : (b s : Text) → IsBlank b → trim_start (b ++ s) ≡ trim_start s
unfolding trim_start
trim_start-blank [] s h = refl
trim_start-blank (c ∷ b) s h = rw h.0 (trim_start-blank b s h.1)

trim_start-solid : (s : Text) → IsSolid s → trim_start s ≡ s
unfolding trim_start
trim_start-solid [] h = refl
trim_start-solid (c ∷ s) h = rw h.0 refl

trim_start-kept : (c : ℕ) (s : Text) → is_space c ≡ false → trim_start (c ∷ s) ≡ c ∷ s
unfolding trim_start
trim_start-kept c s h = rw h refl

pub trim_lem :
    (before after s : Text) (c : ℕ)
    → IsBlank before
    → IsBlank after
    → IsSolid (c ∷ s)
    → trim (before ++ ((c ∷ s) ++ after)) ≡ c ∷ s
unfolding trim
trim_lem before after s c b a h =
    rw (trim_start-blank before ((c ∷ s) ++ after) b, trim_start-kept c (s ++ after) h.0)
      (ap (λ t. reverse (trim_start t)) (reverse-append (c ∷ s) after)
        ∙ ap reverse (
            trim_start-blank (reverse after) (reverse (c ∷ s))
              (All-reverse (λ d. is_space d ≡ true) after a)
            ∙ trim_start-solid (reverse (c ∷ s)) (All-reverse (λ d. is_space d ≡ false) (c ∷ s) h))
        ∙ reverse-reverse (c ∷ s))

trim_start-all : (b : Text) → IsBlank b → trim_start b ≡ []
unfolding trim_start
trim_start-all [] h = refl
trim_start-all (c ∷ b) h = rw h.0 (trim_start-all b h.1)

pub trim_blank :
    (before after : Text) → IsBlank before → IsBlank after → trim (before ++ after) ≡ []
unfolding trim trim_start
trim_blank before after b a =
    ap (λ t. reverse (trim_start (reverse t)))
      (trim_start-blank before after b ∙ trim_start-all after a)
