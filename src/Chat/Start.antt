-- ===== src/Chat/Start.antt =====
-- How server.c and client.c of 20170815 start: their arguments and the first calls.
pub mod Port
use small_project_for_life_w.Base.{
  ℕ, zero, suc, ◌+◌, ◌-◌, ◌*◌, ◌%◌, ◌^◌, ◌≡◌, refl, ◌&&◌, ◌||◌, Bool, true, false, Option, none,
  some, List, [], ◌∷◌, arith, ◌==◌, leb, if◌then◌else◌, ℤ, pos, negsuc,
}
use small_project_for_life_w.Chat.{Bytes, to_unsigned}

-- `argv[i]`: NULL behind the arguments, and nothing that C defines behind that.
pub data Arg : Type 0 where
  given : Bytes → Arg
  null_arg : Arg
  beyond : Arg

pub arg : List Bytes → ℕ → Arg
arg [] zero = null_arg
arg [] (suc i) = beyond
arg (a ∷ argv) zero = given a
arg (a ∷ argv) (suc i) = arg argv i

-- `if (argv[i]) x = f(argv[i]); else x = default;`
pub or_default : {A : Type 0} → Arg → A → (Bytes → A) → Option A
or_default (given a) d f = some (f a)
or_default null_arg d f = some d
or_default beyond d f = none

-- `atoi`, without the overflow that C leaves undefined
pub skip_spaces : Bytes → Bytes
skip_spaces [] = []
skip_spaces (c ∷ s) = if c == 32 || (leb 9 c && leb c 13) then skip_spaces s else c ∷ s

pub digits_value : ℕ → Bytes → ℕ
digits_value acc [] = acc
digits_value acc (c ∷ s) =
    let more = digits_value (acc * 10 + (c - 48)) s in if leb 48 c && leb c 57 then more else acc

abbrev minus : ℕ → ℤ
minus zero = pos 0
minus (suc n) = negsuc n

pub signed_value : Bytes → ℤ
unfolding digits_value
signed_value [] = pos 0
signed_value (c ∷ s) =
    if c == 45
    then minus (digits_value 0 s)
    else if c == 43
    then pos (digits_value 0 s)
    else pos (digits_value 0 (c ∷ s))

unfoldable pub atoi : Bytes → ℤ
unfolding skip_spaces signed_value
atoi s = signed_value (skip_spaces s)

-- What the sockets are told: the port is one of 16 bits.
pub record Address : Type 0 where
  pub sin_port : ℕ
  pub s_addr : ℕ

pub data Start : Type 0 where
  undefined : Start
  fails : Start
  server_starts : Address → (listnum : ℕ) → Start
  client_starts : Address → Start

abbrev pub default_port : ℕ
default_port = 7777

abbrev pub port_of : Arg → Option ℕ
port_of a = or_default a default_port (λ s. to_unsigned (atoi s))

-- `main` of server.c up to its loop; `argv` are the arguments from `argv[0]` on, and the tests are
-- what `socket`, `bind` and `listen` come to.
unfoldable pub server_start :
    (inet_addr : Bytes → ℕ) (socket_opens binds listens : Bool) → List Bytes → Start
unfolding arg or_default
server_start inet_addr socket_opens binds listens argv =
    if socket_opens
    then elim (port_of (arg argv 2)) [
      | none ↦ undefined
      | some port ↦ elim (or_default (arg argv 3) 3 (λ s. to_unsigned (atoi s))) [
        | none ↦ undefined
        | some listnum ↦ elim (or_default (arg argv 1) 0 inet_addr) [
          | none ↦ undefined
          | some addr ↦
              if binds && listens
              then server_starts (record { sin_port = port % 2 ^ 16; s_addr = addr }) listnum
              else fails
        ]
      ]
    ]
    else fails

-- `main` of client.c up to its loop; `inet_aton` of NULL is undefined.
pub client_start :
    (inet_aton : Bytes → Option ℕ) (socket_opens connects : Bool) → List Bytes → Start
unfolding arg or_default
client_start inet_aton socket_opens connects argv =
    if socket_opens
    then elim (port_of (arg argv 2)) [
      | none ↦ undefined
      | some port ↦ elim (arg argv 1) [
        | beyond ↦ undefined
        | null_arg ↦ undefined
        | given a ↦ elim (inet_aton a) [
          | none ↦ fails
          | some addr ↦
              if connects
              then client_starts (record { sin_port = port % 2 ^ 16; s_addr = addr })
              else fails
        ]
      ]
    ]
    else fails
