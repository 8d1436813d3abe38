-- ===== src/Types.antt =====
-- `enum navi_type` of navi.h, with the numbers that C gives its constants, and the pseudo-types of
-- the second enum there, which argument declarations use.
use navi_scheme.Base.{ℕ, ◌≡◌, refl, Bool, true, ◌==◌, ==_iff}

pub data NaviType : Type 0 where
  void nil fixnum eof bool char pair port string symbol vector bytevec : NaviType
  values macro special promise thunk procedure caselambda escape parameter : NaviType
  bounce environment trap : NaviType

unfoldable pub code : NaviType → ℕ
code void = 0
code nil = 1
code fixnum = 2
code eof = 3
code bool = 4
code char = 5
code pair = 6
code port = 7
code string = 8
code symbol = 9
code vector = 10
code bytevec = 11
code values = 12
code macro = 13
code special = 14
code promise = 15
code thunk = 16
code procedure = 17
code caselambda = 18
code escape = 19
code parameter = 20
code bounce = 21
code environment = 22
code trap = 23

-- `navi_type(obj) == type`.
unfoldable pub same_type : NaviType → NaviType → Bool
unfolding code
same_type a b = code a == code b

-- What `navi_is_type` and `check_apply` accept as a declared type.
pub data ArgType : Type 0 where
  list proper_list byte any : ArgType
  exactly : NaviType → ArgType

-- Telling types by their numbers tells the types.
pub same_type_refl : (a : NaviType) → same_type a a ≡ true
unfolding same_type
same_type_refl a = (==_iff (code a) (code a)).1 refl
