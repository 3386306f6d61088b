-- ===== src/Limits/Tests.antt =====
-- The limiter and the address of a client at concrete requests.
use ubuntu_auto_update.Base.{
  ◌+◌, ◌-◌, ◌*◌, ◌≤◌, ◌≡◌, refl, true, List, [], ◌∷◌, ◌++◌, none, some, Text, codes, text_eq,
  trim_space, arith, ok,
}
use ubuntu_auto_update.Limits.Defs.{
  token, capacity, find_bucket, clean_idle, is_idle, put_bucket, refill, allow,
}
use ubuntu_auto_update.Limits.Bound.{
  LimitOp, InOrder, asked, cleaned, end_of, admitted, admitted-bound,
}
use ubuntu_auto_update.Limits.Address.{
  Net, client_ip, allow_addr, env_is_true, has_comma, client_ip-Forged, split_commas,
}

abbrev home : Text
home = codes "10.0.0.7"

-- Six requests in a second, a round of CleanIdle and another request.
abbrev busy : List LimitOp
busy =
    asked 1000000000 home
    ∷ asked 1100000000 home
    ∷ asked 1200000000 home
    ∷ asked 1300000000 home
    ∷ asked 1400000000 home
    ∷ asked 1500000000 home
    ∷ cleaned 2000000000 3600000000000
    ∷ asked 13500000000 home
    ∷ []

busy_test : admitted home busy [] ≡ 6
unfolding admitted text_eq allow refill find_bucket put_bucket clean_idle is_idle
busy_test = refl

admitted-bound_example :
    admitted home busy [] * token ≤ capacity + (end_of 1000000000 busy - 1000000000)
admitted-bound_example = admitted-bound home 1000000000 busy [] in_order
  where
    in_order : InOrder 1000000000 busy
    in_order = (
      omega arith,
      (
        omega arith,
        (
          omega arith,
          (
            omega arith,
            (omega arith, (omega arith, (omega arith, omega arith, (omega arith, tt)))),
          ),
        ),
      ),
    )

split_test : split_commas (codes "a,b,") ≡ codes "a" ∷ codes "b" ∷ [] ∷ []
unfolding split_commas
split_test = refl

-- Addresses as they are written, with no ports and no prefixes.
abbrev plain_net : Net Text Text
plain_net = record {
  parse_ip = λ s. some s;
  is_v4 = λ ip. true;
  parse_cidr = λ s. ok s;
  contains = λ n ip. text_eq n ip;
  split_host = λ s. none;
}

-- From 198.51.100.9, with a header that claims the address of the list.
client_ip-Forged_example :
    (client_ip
        (λ s. none)
        (record {
          trust = codes "True";
          forwarded_for = codes "10.0.0.7" ++ (codes ", " ++ codes "198.51.100.9");
          remote_addr = codes "127.0.0.1";
        })
      ≡ trim_space (codes "10.0.0.7"))
    × (allow_addr plain_net (some (home ∷ [])) (
          client_ip
            (λ s. none)
            (record {
              trust = codes "True";
              forwarded_for = codes "10.0.0.7" ++ (codes ", " ++ codes "198.51.100.9");
              remote_addr = codes "127.0.0.1";
            }))
        ≡ allow_addr plain_net (some (home ∷ [])) (trim_space (codes "10.0.0.7")))
unfolding env_is_true has_comma text_eq
client_ip-Forged_example =
    client_ip-Forged plain_net (some (home ∷ [])) (codes "True") home (codes "198.51.100.9")
      (codes "127.0.0.1") refl refl refl
