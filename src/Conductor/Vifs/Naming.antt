-- ===== src/Conductor/Vifs/Naming.antt =====
-- The name of a network port, from which its number is read when it is removed.
use Prim.Native.Char.{Char, code}
use Prim.Native.String.{String}
use Prim.Native.Nat.{◌/◌}
use Prim.Native.String.append
use stack4things_openstack_i.Action.{ok}
use stack4things_openstack_i.Base.{
  Bool-cases, List, arith, codes, concat, inl, inr, leb, ltb, refl, suc, true, zero, ℕ, ◌%◌, ◌*◌,
  ◌+◌, ◌-◌, ◌<◌, ◌∙◌, ◌∷◌, ◌≡◌,
}
use stack4things_openstack_i.Conductor.Version.{parse_from, parse_int}
use stack4things_openstack_i.Base.{decimal, digit, digits}
use stack4things_openstack_i.Db.Schema.{Column, Value, value_of}
use stack4things_openstack_i.Conductor.Vifs.{drop_chars, vif_name_of, vif_number, vif_values}

digit_code : (d : ℕ) → d < 10 → code (digit d) ≡ b'0' + d
unfolding digit
digit_code zero h = refl
digit_code (suc zero) h = refl
digit_code (suc (suc zero)) h = refl
digit_code (suc (suc (suc zero))) h = refl
digit_code (suc (suc (suc (suc zero)))) h = refl
digit_code (suc (suc (suc (suc (suc zero))))) h = refl
digit_code (suc (suc (suc (suc (suc (suc zero)))))) h = refl
digit_code (suc (suc (suc (suc (suc (suc (suc zero))))))) h = refl
digit_code (suc (suc (suc (suc (suc (suc (suc (suc zero)))))))) h = refl
digit_code (suc (suc (suc (suc (suc (suc (suc (suc (suc zero))))))))) h = refl
digit_code (suc (suc (suc (suc (suc (suc (suc (suc (suc (suc n)))))))))) h = absurd (omega arith)

-- one digit is read
parse_from-digit :
    (acc d : ℕ) (cs : List ℕ)
    → d < 10
    → parse_from acc (code (digit d) ∷ cs) ≡ parse_from (acc * 10 + d) cs
unfolding parse_from
parse_from-digit acc d cs h =
    let lo : leb b'0' (b'0' + d) ≡ true = ground arith in
    let hi : leb (b'0' + d) b'9' ≡ true = ground arith in
    let left : b'0' + d - b'0' ≡ d = omega arith in rw (digit_code d h, lo, hi, left) refl

-- the digits of a number are read as the number
parse_from-digits :
    (fuel n : ℕ) (s : String)
    → n < fuel
    → parse_from 0 (codes (digits fuel n s)) ≡ parse_from n (codes s)
unfolding digits
parse_from-digits zero n s h = absurd (omega arith)
parse_from-digits (suc fuel) n s h = elim (Bool-cases (ltb n 10)) [
  | inl e ↦
      let start : 0 * 10 + n ≡ n = omega arith in
      rw e (parse_from-digit 0 n (codes s) (ground (arith, e)) ∙ rw start refl)
  | inr e ↦
      let low : n % 10 < 10 = omega arith in
      let whole_again : n / 10 * 10 + n % 10 ≡ n = omega arith in
      let rest =
        parse_from-digits fuel (n / 10) (String.◌∷◌ (digit (n % 10)) s) (ground (arith, e)) in
      rw e (rest ∙ parse_from-digit (n / 10) (n % 10) (codes s) low ∙ rw whole_again refl)
]

digits-cons :
    (fuel n : ℕ) (c : Char) (s : String)
    → (d : Char) × (t : String) × (digits fuel n (String.◌∷◌ c s) ≡ String.◌∷◌ d t)
unfolding digits
digits-cons zero n c s = (c, s, refl)
digits-cons (suc fuel) n c s = elim (Bool-cases (ltb n 10)) [
  | inl e ↦ rw e (digit n, String.◌∷◌ c s, refl)
  | inr e ↦ rw e (digits-cons fuel (n / 10) (digit (n % 10)) (String.◌∷◌ c s))
]

parse_int-cons :
    (t : String) (d : Char) (u : String)
    → t ≡ String.◌∷◌ d u
    → parse_int (codes t) ≡ parse_from 0 (codes t)
unfolding parse_int
parse_int-cons t d u e = rw e refl

parse_int-decimal : (n : ℕ) → parse_int (codes (decimal n)) ≡ ok n
unfolding decimal digits parse_from
parse_int-decimal n =
    let read = parse_from-digits (suc n) n "" (omega arith) in
    let starts_with = digits-cons n (n / 10) (digit (n % 10)) "" in
    elim (Bool-cases (ltb n 10)) [
      | inl e ↦ parse_int-cons (decimal n) (digit n) "" (ground (arith, e)) ∙ read
      | inr e ↦
          parse_int-cons (decimal n) starts_with.0 starts_with.1 (ground (arith, e, starts_with.2))
          ∙ read
    ]

drop_chars-concat : (t : String) → drop_chars 8 (concat "iotronic" t) ≡ t
unfolding drop_chars
drop_chars-concat t =
    rw
      (
        drop_chars, append.cons, append.cons, append.cons, append.cons, append.cons, append.cons,
        append.cons, append.cons, append.nil,
      )
      refl

-- The row that create_port_on_board stores for a network port has a name from which
-- remove_VIF_from_board reads the number of the port again, whatever the other columns.
pub vif_number-vif_values :
    (n : ℕ) (uuid mac board_uuid network ip : Value)
    → (name : String) × (value_of Column.vif_name (vif_values n uuid mac board_uuid network ip)
        ≡ Value.str name)
      × (vif_number name ≡ ok n)
unfolding vif_values vif_name_of vif_number
vif_number-vif_values n uuid mac board_uuid network ip =
    (vif_name_of n, refl, rw drop_chars-concat (parse_int-decimal n))
