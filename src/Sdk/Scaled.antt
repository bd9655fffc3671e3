-- ===== src/Sdk/Scaled.antt =====
-- One way to meet the interface: decimals as integers scaled by 10 ^ 18, rounded half to even, and
-- a bank that is a list of balances. The tests and the witnesses run on it.
use Prim.Native.Nat.{compare}
use sommelier.Base.{
  ℕ, zero, suc, ◌+◌, ◌-◌, ◌*◌, ◌/◌, ◌%◌, ◌^◌, String, true, false, ◌&&◌, Option, none, some, List,
  [], ◌∷◌, ltb, leb, ◌==◌, nat_eq, string_eq, if◌then◌else◌,
}
use sommelier.Base.Int.{
  ℤ, pos, negsuc, pos_part, neg_part, sub_ℕ, ◌+ℤ◌, ◌-ℤ◌, ◌*ℤ◌, quo_ℤ, ltb_ℤ, leb_ℤ, is_zero,
}
use sommelier.Base.Exec.{Outcome, ok, err, foreign}
use sommelier.Sdk.{Coin, Sdk}

abbrev pub unit : ℕ
unit = 10 ^ 18

abbrev pub half_even : ℕ → ℕ
half_even n =
    let q = n / unit in
    let r = n % unit in
    if ltb (2 * r) unit then q else if ltb unit (2 * r) then q + 1 else q + q % 2

abbrev pub chop : ℤ → ℤ
chop (pos n) = pos (half_even n)
chop (negsuc n) = sub_ℕ 0 (half_even (suc n))

unfoldable pub of_int : ℤ → ℤ
unfolding ◌*ℤ◌
of_int a = a *ℤ pos unit

unfoldable pub add_dec : ℤ → ℤ → ℤ
unfolding ◌+ℤ◌
add_dec a b = a +ℤ b

unfoldable pub sub_dec : ℤ → ℤ → ℤ
unfolding ◌-ℤ◌
sub_dec a b = a -ℤ b

unfoldable pub mul_dec : ℤ → ℤ → ℤ
unfolding ◌*ℤ◌
mul_dec a b = chop (a *ℤ b)

unfoldable pub quo_dec : ℤ → ℤ → Option ℤ
unfolding ◌*ℤ◌ quo_ℤ
quo_dec a b = if is_zero b then none else some (chop (quo_ℤ (a *ℤ pos unit *ℤ pos unit) b))

unfoldable pub power_dec : ℤ → ℕ → ℤ
unfolding mul_dec
power_dec a zero = pos unit
power_dec a (suc n) = mul_dec a (power_dec a n)

abbrev pub ceil_dec : ℤ → ℤ
ceil_dec (pos n) = pos ((n + (unit - 1)) / unit * unit)
ceil_dec (negsuc n) = sub_ℕ 0 (suc n / unit * unit)

abbrev pub truncate : ℤ → ℤ
truncate (pos n) = pos (n / unit)
truncate (negsuc n) = sub_ℕ 0 (suc n / unit)

abbrev pub to_int64 : ℤ → Option ℤ
to_int64 a = if leb_ℤ (sub_ℕ 0 (2 ^ 63)) a && ltb_ℤ a (pos (2 ^ 63)) then some a else none

abbrev pub literal : String → ℤ
literal s =
    if s == "1.0"
    then pos unit
    else if s == "10.0"
    then pos (10 * unit)
    else if s == "0.001"
    then pos (10 ^ 15)
    else if s == "0.67"
    then pos (67 * 10 ^ 16)
    else pos 0

-- A balance: the holder, the denom and the amount.
abbrev pub Balances : Type 0
Balances = List (String × String × ℕ)

abbrev pub held : Balances → String → String → ℕ
held [] h d = 0
held ((i, e, n) ∷ b) h d = if i == h && e == d then n else held b h d

abbrev pub put : Balances → String → String → ℕ → Balances
put [] h d n = (h, d, n) ∷ []
put ((i, e, m) ∷ b) h d n = if i == h && e == d then (i, e, n) ∷ b else (i, e, m) ∷ put b h d n

abbrev pub transfer : String → String → Coin → Balances → Balances
transfer from to c b =
    let n = pos_part c.amount in
    let b' = put b from c.denom (held b from c.denom - n) in
    put b' to c.denom (held b' to c.denom + n)

abbrev pub send : String → String → List Coin → Balances → Outcome String (Unit {0}) × Balances
send from to [] b = (ok tt, b)
send from to (c ∷ cs) b =
    if leb (pos_part c.amount) (held b from c.denom)
    then send from to cs (transfer from to c b)
    else (err foreign, b)

abbrev pub make_coin : String → ℤ → Option Coin
make_coin d n = if ltb_ℤ n (pos 0) then none else some (record { denom = d; amount = n })

instance abbrev pub scaled : Sdk
scaled = record {
  Decimal = ℤ;
  dec_int = of_int;
  dec_str = literal;
  add = add_dec;
  sub = sub_dec;
  mul = mul_dec;
  quo = quo_dec;
  power = power_dec;
  ceil = ceil_dec;
  truncate_int = truncate;
  truncate_int64 = λ a. to_int64 (truncate a);
  cmp = λ a b. compare (pos_part a + neg_part b) (pos_part b + neg_part a);
  is_valid = λ c. leb_ℤ (pos 0) c.amount;
  new_coin = make_coin;
  new_coins = λ c. if is_zero c.amount then some [] else some (c ∷ []);
  sub_coin =
      λ c d. if c.denom == d.denom then make_coin c.denom (sub_dec c.amount d.amount) else none;
  acc_address = λ s. if s == "" then none else some s;
  validate_abstract = λ title description. if title == "" then false else true;
  gravity_denom_prefix = "gravity";
  Bank = Balances;
  Reason = String;
  module_balance = λ b m d. record { denom = d; amount = pos (held b m d) };
  send_module_to_module = send;
  send_account_to_module = send;
  send_module_to_account = send;
}
