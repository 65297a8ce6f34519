-- ===== src/Chat/Start/Port.antt =====
-- Which port the server of 20170815 listens at.
use small_project_for_life_w.Base.{ℕ, ◌%◌, ◌^◌, ◌≡◌, refl, Bool, List, [], ◌∷◌, arith}
use small_project_for_life_w.Chat.{Bytes, to_unsigned}
use small_project_for_life_w.Chat.Start.{given, arg, atoi, Address, server_starts, server_start}

started :
    (inet_addr : Bytes → ℕ) (opens binds listens : Bool) (x y z : Bytes) (argv : List Bytes)
    (listnum : ℕ) (addr : Address)
    → server_start inet_addr opens binds listens (x ∷ y ∷ z ∷ argv) ≡ server_starts addr listnum
    → addr.sin_port ≡ to_unsigned (atoi z) % 2 ^ 16
unfolding server_start
started inet_addr opens binds listens x y z argv listnum addr h = ground arith

-- The default port is never used: a start of the server that C defines has its port from `argv[2]`,
-- since without a third argument `argv[3]` lies behind the NULL.
pub server_start-port_given :
    (inet_addr : Bytes → ℕ) (opens binds listens : Bool) (argv : List Bytes) (listnum : ℕ)
    (addr : Address)
    → server_start inet_addr opens binds listens argv ≡ server_starts addr listnum
    → (a : Bytes) × (arg argv 2 ≡ given a) × (addr.sin_port ≡ to_unsigned (atoi a) % 2 ^ 16)
unfolding server_start
server_start-port_given inet_addr opens binds listens [] n addr h =
    let bad : ⊥ = ground arith in absurd bad
server_start-port_given inet_addr opens binds listens (x ∷ []) n addr h =
    let bad : ⊥ = ground arith in absurd bad
server_start-port_given inet_addr opens binds listens (x ∷ y ∷ []) n addr h =
    let bad : ⊥ = ground arith in absurd bad
server_start-port_given inet_addr opens binds listens (x ∷ y ∷ z ∷ argv) n addr h =
    (z, refl, started inet_addr opens binds listens x y z argv n addr h)
