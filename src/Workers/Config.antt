-- ===== src/Workers/Config.antt =====
-- packages/common-backend/src/modules/cluster/cluster.config.ts: the environment that a cluster
-- needs. `trim` is a parameter; `Number.parseInt` is read to the base ten, on a text that begins with no space.
use boar_pack.Base.{
  ℕ, String, ◌+◌, ◌-◌, ◌*◌, ◌≤◌, ◌≡◌, Bool, true, false, not, ◌&&◌, ◌||◌, Option, none, some, ◌==◌,
  number_eq, text_eq, leb, ltb, if◌then◌else◌, Result, ok, err, truthy_text, all_codes, arith, sym,
  ap, ◌∙◌,
}
use Prim.Native.Char.{code}

-- What `parseInt` answers: not a number, a negative number or another.
pub data Parsed : Type 0 where
  not_a_number : Parsed
  negative whole : ℕ → Parsed

abbrev pub is_digit : ℕ → Bool
is_digit c = leb b'0' c && leb c b'9'

-- The value of the digits up to the first other character, behind those of `acc`.
unfoldable pub digits_from : ℕ → String → ℕ
digits_from acc String.[] = acc
digits_from acc (String.◌∷◌ c s) =
    let more = digits_from (acc * 10 + (code c - b'0')) s in if is_digit (code c) then more else acc

abbrev pub starts_with_digit : String → Bool
starts_with_digit String.[] = false
starts_with_digit (String.◌∷◌ c s) = is_digit (code c)

abbrev pub parsed_digits : (ℕ → Parsed) → String → Parsed
parsed_digits sign s = if starts_with_digit s then sign (digits_from 0 s) else not_a_number

unfoldable pub parse_int : String → Parsed
parse_int String.[] = not_a_number
parse_int (String.◌∷◌ c s) =
    if code c == b'-'
    then parsed_digits negative s
    else if code c == b'+'
    then parsed_digits whole s
    else parsed_digits whole (String.◌∷◌ c s)

pub data ConfigError : Type 0 where
  port_not_set port_not_valid worker_not_set : ConfigError

pub record Config : Type 0 where
  pub port : Parsed
  pub worker : Option String
  pub disable_cluster : Bool

-- The variables that are read.
pub record Variables : Type 0 where
  pub port : Option String
  pub worker : Option String
  pub disable_cluster : Option String

abbrev pub min_port : ℕ
min_port = 1

abbrev pub max_port : ℕ
max_port = 65535

-- `port < MIN_PORT || port > MAX_PORT`, which no comparison with NaN satisfies.
abbrev pub is_out_of_range : Parsed → Bool
is_out_of_range not_a_number = false
is_out_of_range (negative n) = true
is_out_of_range (whole n) = ltb n min_port || ltb max_port n

abbrev pub text_or_empty : Option String → String
text_or_empty (some s) = s
text_or_empty none = ""

-- `/^\d+$/`.
abbrev pub is_digits : String → Bool
is_digits s = not (s == "") && all_codes is_digit s

module _ (trim : String → String) where
  abbrev pub raw_port : Variables → Option String
  raw_port env = elim env.port [ some s ↦ some (trim s) | none ↦ none ]

  abbrev pub is_cluster_disabled : Variables → Bool
  is_cluster_disabled env = text_or_empty env.disable_cluster == "true"

  -- `config`, or the error that it throws; `is_worker` is `cluster.isWorker`.
  unfoldable pub config : Bool → Variables → Result ConfigError Config
  config is_worker env =
      let port = parse_int (text_or_empty (raw_port env)) in
      let result : Config = record {
        port = port;
        worker = env.worker;
        disable_cluster = is_cluster_disabled env;
      } in
      if is_cluster_disabled env
      then ok result
      else if not (truthy_text (raw_port env))
      then err port_not_set
      else if not (is_digits (text_or_empty (raw_port env))) || is_out_of_range port
      then err port_not_valid
      else if is_worker && not (truthy_text env.worker)
      then err worker_not_set
      else ok result

parse_int-digits : (s : String) → is_digits s ≡ true → parse_int s ≡ whole (digits_from 0 s)
unfolding parse_int
parse_int-digits String.[] h = ground (arith, h)
parse_int-digits (String.◌∷◌ c s) h = ground (arith, h)

in_range :
    (p : Parsed) (n : ℕ) → p ≡ whole n → is_out_of_range p ≡ false → (min_port ≤ n) × (n ≤ max_port)
in_range p n e h = ground (arith, e, h)

valid_port : (digits out : Bool) → (not digits || out) ≡ false → (digits ≡ true) × (out ≡ false)
valid_port digits out h = ground (arith, h)

-- What is known of the checks once a configuration is read.
checks_passed :
    (disabled unset invalid nameless : Bool) (r c : Config)
    → disabled ≡ false
    → (if disabled
        then ok r
        else if unset
        then err port_not_set
        else if invalid
        then err port_not_valid
        else if nameless
        then err worker_not_set
        else ok r)
      ≡ ok c
    → (invalid ≡ false) × (nameless ≡ false) × (r ≡ c)
checks_passed true u v w r c off h = ground (arith, off)
checks_passed false true v w r c off h = ground (arith, h)
checks_passed false false true w r c off h = ground (arith, h)
checks_passed false false false true r c off h = ground (arith, h)
checks_passed false false false false r c off h = ground (arith, h)

module _ (trim : String → String) where
  -- With the cluster enabled, a configuration that is read has a port from 1 to 65535, whose digits
  -- are those of the trimmed variable, and a worker has its name; the cluster is enabled in it.
  pub config-bounds :
      (is_worker : Bool) (env : Variables) (c : Config)
      → is_cluster_disabled trim env ≡ false
      → config trim is_worker env ≡ ok c
      → let port = digits_from 0 (text_or_empty (raw_port trim env)) in
        (c.port ≡ whole port)
        × (min_port ≤ port)
        × (port ≤ max_port)
        × ((is_worker && not (truthy_text c.worker)) ≡ false)
        × (c.disable_cluster ≡ false)
  unfolding config
  config-bounds is_worker env c enabled h =
      let (invalid, nameless, e) =
        checks_passed (is_cluster_disabled trim env) (not (truthy_text (raw_port trim env)))
          (not (is_digits (text_or_empty (raw_port trim env)))
            || is_out_of_range (parse_int (text_or_empty (raw_port trim env))))
          (is_worker && not (truthy_text env.worker))
          (record {
            port = parse_int (text_or_empty (raw_port trim env));
            worker = env.worker;
            disable_cluster = is_cluster_disabled trim env;
          })
          c enabled h in
      let (digits, in_bounds) = valid_port _ _ invalid in
      let parsed = parse_int-digits (text_or_empty (raw_port trim env)) digits in
      let (lower, upper) = in_range _ _ parsed in_bounds in
      (
        sym (ap (λ r. r.port) e) ∙ parsed,
        lower,
        upper,
        ap (λ r. is_worker && not (truthy_text r.worker)) (sym e) ∙ nameless,
        sym (ap (λ r. r.disable_cluster) e) ∙ enabled,
      )
