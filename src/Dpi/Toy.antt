-- ===== src/Dpi/Toy.antt =====
-- A toy cipher and a request, for the tests of the dpi transport.
use ptbridge.Base.{ℕ, refl, List, [], ◌∷◌, ◌++◌, drop, replicate, some, text, arith}
use ptbridge.Dpi.Crypto.{Aead, IsAead}
use ptbridge.Dpi.Request.{ConnectRequest}

-- The tag is sixteen zeros, in front.
abbrev pub aead : Aead
aead = record { seal = λ nonce p. replicate 16 0 ++ p; unseal = λ nonce c. some (drop 16 c) }

pub IsAead-aead : IsAead aead
IsAead-aead = record { unseal-seal = λ nonce p. refl; length-seal = λ nonce p. omega arith }

abbrev pub nonce : List ℕ
nonce = 1 ∷ 2 ∷ 3 ∷ 4 ∷ 5 ∷ 6 ∷ 7 ∷ 8 ∷ 9 ∷ 10 ∷ 11 ∷ 12 ∷ []

abbrev pub encrypted : List ℕ → List ℕ
encrypted message = nonce ++ (replicate 16 0 ++ message)

abbrev pub req : ConnectRequest
req = record { network = text "tcp"; address = text "a.example:80" }
