-- ===== src/Modbus/Server/Frames.antt =====
-- Request frames as the server indexes them.
use simple_socket.Prelude.{ℕ, ◌+◌, ◌*◌, List, ◌∷◌}

-- A request frame: the header's four first bytes, its length, the unit, the function code, an
-- address, a quantity (or a value), and what follows.
pub record Frame : Type 0 where
  pub t₁ : ℕ
  pub t₀ : ℕ
  pub p₁ : ℕ
  pub p₀ : ℕ
  pub l₁ : ℕ
  pub l₀ : ℕ
  pub unit : ℕ
  pub code : ℕ
  pub a₁ : ℕ
  pub a₀ : ℕ
  pub q₁ : ℕ
  pub q₀ : ℕ
  pub rest : List ℕ

abbrev pub bytes : Frame → List ℕ
bytes f =
    f.t₁ ∷ f.t₀ ∷ f.p₁ ∷ f.p₀ ∷ f.l₁ ∷ f.l₀ ∷ f.unit ∷ f.code ∷ f.a₁ ∷ f.a₀ ∷ f.q₁ ∷ f.q₀ ∷ f.rest

abbrev pub address : Frame → ℕ
address f = f.a₁ * 256 + f.a₀

abbrev pub quantity : Frame → ℕ
quantity f = f.q₁ * 256 + f.q₀
