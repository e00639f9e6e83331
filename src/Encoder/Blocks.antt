-- ===== src/Encoder/Blocks.antt =====
-- The hypercubes of a stream that stand compressed behind the header.
use native.Mathlib.Nat.{mul-le-mul_right}
use ndzip.Base.{ℕ, zero, suc, ◌+◌, ◌*◌, ◌≤◌, ◌<◌, ◌≡◌, refl, arith}
use ndzip.Memory.{Memory}
use ndzip.Transform.{block_transform}
use ndzip.ZeroBit.{w}
use ndzip.ZeroBit.Chunks.{planes, body, body_mono, IsEncoded, IsEncoded_cong}
use ndzip.ZeroBit.Words.{count_nonzero, count_nonzero-le}
use ndzip.Stream.{offset_after}
use ndzip.Stream.Header.{start, start-cong, offset_after-cong}

-- The words that the first `c` chunks take, the heads of all chunks included.
abbrev pub body_words : ℕ → Memory → Memory → ℕ → ℕ → ℕ
body_words bytes scratch cube chunks zero = chunks
body_words bytes scratch cube chunks (suc c) =
    body_words bytes scratch cube chunks c
    + count_nonzero (planes bytes scratch cube chunks 0 c) (w bytes)

pub body_words-le :
    (bytes : ℕ) (scratch cube : Memory) (chunks c : ℕ)
    → body_words bytes scratch cube chunks c ≤ chunks + c * w bytes
body_words-le bytes scratch cube chunks zero = omega arith
body_words-le bytes scratch cube chunks (suc c) = omega (
  arith,
  body_words-le bytes scratch cube chunks c,
  count_nonzero-le (planes bytes scratch cube chunks 0 c) (w bytes),
)

pub body-words :
    (bytes : ℕ) (scratch cube : Memory) (chunks p c : ℕ)
    → body bytes scratch cube chunks p c ≡ body_words bytes scratch cube chunks c * bytes
unfolding planes
body-words bytes scratch cube chunks p zero = refl
body-words bytes scratch cube chunks p (suc c) =
    omega (arith, body-words bytes scratch cube chunks p c)

module _ (bytes dims side chunks first : ℕ) (values : Memory) (address : ℕ → ℕ → ℕ) where
  -- The hypercube `j` of the grid stands compressed where the header says, before the word `limit`;
  -- the cells of `loaded` are its cells in the grid.
  pub record Stands (limit j : ℕ) (stream : Memory) : Type 0 where
    pub scratch : Memory
    pub loaded : Memory
    pub cells : (c : ℕ) → c < chunks * w bytes → loaded c ≡ values (address j c)
    pub encoded :
        IsEncoded bytes scratch
          (block_transform (w bytes) dims side loaded)
          chunks
          (first + start stream j * bytes)
          chunks
          stream
    pub ends :
        start stream j * bytes
          + body bytes scratch
              (block_transform (w bytes) dims side loaded)
              chunks
              (first + start stream j * bytes)
              chunks
        ≡ offset_after stream j * bytes
    pub before : offset_after stream j ≤ limit

  -- It does so as long as its offsets and the words before `limit` are left alone.
  pub Stands-cong :
      (limit limit' j : ℕ) (x y : Memory)
      → limit ≤ limit'
      → ((a : ℕ) → a < suc j * 4 → y a ≡ x a)
      → ((a : ℕ) → first ≤ a → a < first + limit * bytes → y a ≡ x a)
      → Stands limit j x
      → Stands limit' j y
  Stands-cong limit limit' j x y more head same s =
      let cube = block_transform (w bytes) dims side s.loaded in
      let from : start y j ≡ start x j = start-cong y x j (λ a h. head a (omega arith)) in
      let to : offset_after y j ≡ offset_after x j = offset_after-cong y x j head in
      let room : offset_after x j * bytes ≤ limit * bytes = mul-le-mul_right bytes s.before in
      let p = first + start x j * bytes in
      let least = body_mono bytes s.scratch cube chunks p 0 chunks (omega arith) in
      record {
        scratch = s.scratch;
        loaded = s.loaded;
        cells = s.cells;
        encoded = rw from (
            IsEncoded_cong bytes s.scratch cube chunks p chunks x y (omega arith)
              (λ a lo hi. same a (omega arith) (grind (arith, least, room, s.ends))) s.encoded);
        ends = rw (from, to) (s.ends);
        before = rw to (omega (arith, s.before));
      }
