-- ===== src/Prelude/Domain.antt =====
-- The texts of mail domains: the pattern /^[a-z0-9](?:[a-z0-9.-]*[a-z0-9])?$/u, and what follows
-- the last @ of an address.
use Prim.Native.Nat.{ℕ}
use Prim.Native.Char.{code}
use Prim.Native.String.{String, [], ◌∷◌}
use mathlib.Core.Bool.{Bool, true, false, ◌&&◌, ◌||◌}
use sauryctf.Prelude.Tests.{leb, ◌==◌, if◌then◌else◌}

-- The class [a-z0-9].
abbrev pub is_word : ℕ → Bool
is_word c = (leb 97 c && leb c 122) || (leb 48 c && leb c 57)

-- The rest of the pattern, after a first character: it ends in [a-z0-9].
abbrev pub is_domain_rest : Bool → String → Bool
is_domain_rest last_is_word [] = last_is_word
is_domain_rest last_is_word (c ∷ cs) =
    (is_word (code c) || code c == 46 || code c == 45) && is_domain_rest (is_word (code c)) cs

abbrev pub is_domain : String → Bool
is_domain [] = false
is_domain (c ∷ cs) = is_word (code c) && is_domain_rest true cs

abbrev pub has_at : String → Bool
has_at [] = false
has_at (c ∷ cs) = code c == 64 || has_at cs

-- `email.split('@').at(-1)`.
abbrev pub domain_of : String → String
domain_of [] = []
domain_of (c ∷ cs) = if code c == 64 || has_at cs then domain_of cs else c ∷ cs
