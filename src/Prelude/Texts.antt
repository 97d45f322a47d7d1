-- ===== src/Prelude/Texts.antt =====
-- Program text that is looked into, as its list of code points, and the parts of Python's `str`
-- that the program calls on it. Letters are those of ASCII.
use Prim.Native.Nat.{ℕ, ◌+◌}
use Prim.Native.Char.{code}
use Prim.Native.String.{String}
use mathlib.Core.Path.{◌≡◌, refl}
use mathlib.Core.Logic.{◌↔◌}
use mathlib.Core.Bool.{Bool, true, false, ◌&&◌, ◌||◌}
use mathlib.Core.List.{List, [], ◌∷◌, map, reverse}
use native.Mathlib.Omega.{arith}
use stage.Prelude.Tests.{leb, ◌==◌, if◌then◌else◌}

abbrev pub Text : Type 0
Text = List ℕ

abbrev pub codes : String → Text
codes String.[] = []
codes (String.◌∷◌ c s) = code c ∷ codes s

unfoldable pub text_eq : Text → Text → Bool
text_eq [] [] = true
text_eq (a ∷ s) (b ∷ t) = a == b && text_eq s t
text_eq _ _ = false

pub text_eq_iff : (s t : Text) → (text_eq s t ≡ true) ↔ (s ≡ t)
unfolding text_eq
text_eq_iff [] [] = (λ h. refl, λ h. refl)
text_eq_iff [] (b ∷ t) = (λ h. ground arith, λ h. ground arith)
text_eq_iff (a ∷ s) [] = (λ h. ground arith, λ h. ground arith)
text_eq_iff (a ∷ s) (b ∷ t) =
    (λ h. ground (arith, (text_eq_iff s t).0), λ h. ground (arith, (text_eq_iff s t).1))

-- c.isspace() on ASCII: tab to carriage return, the four separators, and the space.
unfoldable pub is_space : ℕ → Bool
is_space c = leb 9 c && leb c 13 || leb 28 c && leb c 32

unfoldable pub is_lower : ℕ → Bool
is_lower c = leb 97 c && leb c 122

unfoldable pub is_upper : ℕ → Bool
is_upper c = leb 65 c && leb c 90

unfoldable pub is_digit : ℕ → Bool
is_digit c = leb 48 c && leb c 57

-- s.lower()
unfoldable pub lower : Text → Text
unfolding is_upper
lower = map (λ c. if is_upper c then c + 32 else c)

unfoldable pub lstrip : (ℕ → Bool) → Text → Text
lstrip p [] = []
lstrip p (c ∷ s) = if p c then lstrip p s else c ∷ s

-- s.strip() and s.strip(chars), for the characters that a test picks.
unfoldable pub strip : (ℕ → Bool) → Text → Text
unfolding lstrip
strip p s = reverse (lstrip p (reverse (lstrip p s)))

-- `re.sub("[^...]+", "-", s)`: every longest run of characters outside a class becomes one dash.
-- The flag says that the character before was in such a run.
sub_run : (ℕ → Bool) → Bool → Text → Text
sub_run ok in_run [] = []
sub_run ok in_run (c ∷ s) =
    let kept = c ∷ sub_run ok false s in
    let dashed = 45 ∷ sub_run ok true s in
    let dropped = sub_run ok true s in if ok c then kept else if in_run then dropped else dashed

unfoldable pub sub_runs : (ℕ → Bool) → Text → Text
unfolding sub_run
sub_runs ok = sub_run ok false

-- `s or default`
abbrev pub or_text : Text → Text → Text
or_text [] default = default
or_text (c ∷ s) default = c ∷ s

abbrev pub dash : ℕ → Bool
dash c = c == 45

sub_chars : sub_runs is_lower (codes "ab  c!d") ≡ codes "ab-c-d"
unfolding sub_runs is_lower
sub_chars = refl
