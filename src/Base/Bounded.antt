-- ===== src/Base/Bounded.antt =====
-- Text that is made fit for one bounded line.
use metagenda.Base.{
  ℕ, Bool, true, false, ◌||◌, ◌==◌, ltb, [], ◌∷◌, if◌then◌else◌, take, ◌≤◌, length, length-take,
  arith,
}
use metagenda.Base.Text.{Text, trim, is_space}

-- `[\u0000-\u001f\u007f]`
abbrev pub is_control : ℕ → Bool
is_control c = ltb c 32 || c == 127

-- `text.replace(/[…]+/g, " ")`: each longest run of the characters becomes one space.
unfoldable pub squeeze : (ℕ → Bool) → Bool → Text → Text
squeeze p in_run [] = []
squeeze p in_run (c ∷ cs) =
    let in_rest = squeeze p true cs in
    let rest = squeeze p false cs in
    if p c then if in_run then in_rest else 32 ∷ in_rest else c ∷ rest

-- Control characters and white space become single spaces, and the text is cut.
unfoldable pub bounded_text : ℕ → Text → Text
unfolding squeeze
bounded_text n text = take n (trim (squeeze is_space false (squeeze is_control false text)))

pub bounded_text-length : (n : ℕ) (t : Text) → length (bounded_text n t) ≤ n
unfolding bounded_text
bounded_text-length n t =
    omega (arith, length-take n (trim (squeeze is_space false (squeeze is_control false t))))
