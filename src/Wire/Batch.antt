-- ===== src/Wire/Batch.antt =====
-- Batched register accesses of src/transport.cpp against a server of Wire/Peer.
use vxdebug.Base.{ℕ, ◌<◌, ◌≤◌, inl, ◌≡◌, refl, ap₂, arith, List, [], ◌∷◌, map}
use vxdebug.Text.Number.{hex_padded, hex_u32}
use vxdebug.Util.{tokenize, join}
use vxdebug.Util.Split.{Avoids-hex_padded, AllAvoid, tokenize-join}
use vxdebug.Wire.Peer.{Peer, AllWords, hex_u32-text}

AllAvoid-texts : (c w : ℕ) (l : List ℕ) → c < b'0' → AllAvoid c (map (hex_padded w) l)
unfolding AllAvoid
AllAvoid-texts c w [] h = tt
AllAvoid-texts c w (a ∷ l) h = (Avoids-hex_padded c w a (inl h), AllAvoid-texts c w l h)

pub tokens-texts :
    (w a : ℕ) (l : List ℕ)
    → tokenize b',' (join b',' (map (hex_padded w) (a ∷ l))) ≡ map (hex_padded w) (a ∷ l)
tokens-texts w a l =
    tokenize-join b',' (hex_padded w a) (map (hex_padded w) l)
      (Avoids-hex_padded b',' w a (inl (omega arith))) (AllAvoid-texts b',' w l (omega arith))

pub numbers-texts :
    (w : ℕ) (l : List ℕ) → 2 ≤ w → AllWords l → map hex_u32 (map (hex_padded w) l) ≡ l
unfolding AllWords
numbers-texts w [] wide h = refl
numbers-texts w (a ∷ l) wide (lt, h) =
    ap₂ (λ (x : ℕ) (y : List ℕ). x ∷ y) (hex_u32-text w a wide lt) (numbers-texts w l wide h)
