-- ===== src/Claims/Tokens.antt =====
-- ECClaimsResolver::tokenize_string and tokenize_interface: a claim id is
-- <slave>/<claim>[/<type>[/<name>]].
pub mod Laws
use soem_driver_ros.Base.{
  ℕ, zero, suc, ◌-◌, List, [], ◌∷◌, ◌++◌, Option, none, some, ◌&&◌, not, ltb, ◌==◌, if◌then◌else◌,
  length, replicate, Text, slash,
}

abbrev pub extend_first : ℕ → List Text → List Text
extend_first c [] = []
extend_first c (p ∷ ps) = (c ∷ p) ∷ ps

-- The pieces between the delimiters.
unfoldable pub split_pieces : ℕ → Text → List Text
split_pieces d [] = [] ∷ []
split_pieces d (c ∷ cs) =
    let rest = split_pieces d cs in if c == d then [] ∷ rest else extend_first c rest

-- std::views::split(input, delimiter): the empty range has no piece.
unfoldable pub split : ℕ → Text → List Text
unfolding split_pieces
split d [] = []
split d (c ∷ cs) = split_pieces d (c ∷ cs)

-- tokens.resize(min_size, default_val), where min_size is set and not reached.
unfoldable pub pad : ℕ → Text → List Text → List Text
pad min_size default_val tokens =
    if not (min_size == 0) && ltb (length tokens) min_size
    then tokens ++ replicate (min_size - length tokens) default_val
    else tokens

-- The delimiter is of one byte, as in the one call.
unfoldable pub tokenize_string : Text → ℕ → ℕ → Text → List Text
unfolding split pad
tokenize_string input delimiter min_size default_val =
    pad min_size default_val (split delimiter input)

-- The four strings that the callers bind.
pub record Tokens : Type 0 where
  pub slave : Text
  pub claim : Text
  pub type : Text
  pub name : Text

-- std::copy into the four elements of an array; `none` is a write behind its end.
unfoldable pub copy_tokens : List Text → Option Tokens
copy_tokens (s ∷ c ∷ t ∷ n ∷ []) = some (record { slave = s; claim = c; type = t; name = n })
copy_tokens (s ∷ c ∷ t ∷ []) = some (record { slave = s; claim = c; type = t; name = [] })
copy_tokens (s ∷ c ∷ []) = some (record { slave = s; claim = c; type = []; name = [] })
copy_tokens (s ∷ []) = some (record { slave = s; claim = []; type = []; name = [] })
copy_tokens [] = some (record { slave = []; claim = []; type = []; name = [] })
copy_tokens _ = none

unfoldable pub tokenize_interface : Text → Option Tokens
unfolding tokenize_string copy_tokens
tokenize_interface input = copy_tokens (tokenize_string input slash 4 [])
