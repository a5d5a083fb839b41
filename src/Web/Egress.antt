-- ===== src/Web/Egress.antt =====
-- internal/web/egress.go, and `guardConnEgress` of internal/web/api_connections.go: the targets that
-- the server does not dial.
use verix_dbm.Base.{
  ◌≡◌, refl, ap, ◌≢◌, ◌↔◌, ◌⊎◌, Bool, true, false, ◌||◌, Option, none, some, List, [], ◌∷◌, arith,
  if◌then◌else◌, All, some_of, Bytes, str_eq, str_eq_iff,
}
use verix_dbm.GoStrings.{trim_space}
use verix_dbm.Config.{Config}
use verix_dbm.Store.{Connection}
use verix_dbm.Sql.Families.{family, family_sqlite}

-- The package `net`: addresses, their classes, and the resolver.
pub record Net : Type 1 where
  pub Address : Type 0
  pub parse_ip : Bytes → Option Address
  pub look_up : Bytes → Option (List Address)
  pub is_loopback : Address → Bool
  pub is_link_local_unicast : Address → Bool
  pub is_link_local_multicast : Address → Bool
  pub is_interface_local_multicast : Address → Bool
  pub is_multicast : Address → Bool
  pub is_unspecified : Address → Bool

pub data EgressError : Type 0 where
  empty_host : EgressError
  unresolved : Bytes → EgressError
  disallowed : Bytes → EgressError

module _ (net : Net) where
  unfoldable pub blocked_egress_ip : net.Address → Bool
  blocked_egress_ip ip =
      net.is_loopback ip
      || (net.is_link_local_unicast ip
          || (net.is_link_local_multicast ip
              || (net.is_interface_local_multicast ip
                  || (net.is_multicast ip || net.is_unspecified ip))))

  -- The addresses of a host: itself, or what its name resolves to.
  unfoldable pub addresses : Bytes → Option (List net.Address)
  addresses host = elim (net.parse_ip host) [ some ip ↦ some (ip ∷ []) | none ↦ net.look_up host ]

  unfoldable pub check_addresses : Bytes → Option (List net.Address) → Option EgressError
  unfolding blocked_egress_ip
  check_addresses host none = some (unresolved host)
  check_addresses host (some ips) =
      if some_of blocked_egress_ip ips then some (disallowed host) else none

  -- The error, if the target is refused.
  unfoldable pub guard_egress_host : Bytes → Bool → Option EgressError
  unfolding addresses check_addresses
  guard_egress_host host allow_local =
      let trimmed = trim_space host in
      if allow_local
      then none
      else if str_eq trimmed []
      then some empty_host
      else check_addresses trimmed (addresses trimmed)

  unfoldable pub guard_conn_egress : Config → Connection → Option EgressError
  unfolding guard_egress_host
  guard_conn_egress cfg c =
      if str_eq (family c.kind) family_sqlite
      then none
      else guard_egress_host c.host (cfg.allow_local_targets || cfg.dev_mode)

  -- The address is in none of the ranges that are closed.
  abbrev pub IsOpen : net.Address → Type 0
  IsOpen ip =
      (net.is_loopback ip ≡ false)
      × (net.is_link_local_unicast ip ≡ false)
      × (net.is_link_local_multicast ip ≡ false)
      × (net.is_interface_local_multicast ip ≡ false)
      × (net.is_multicast ip ≡ false)
      × (net.is_unspecified ip ≡ false)

  -- Every address that a host stands for is open.
  abbrev pub IsReachable : Bytes → Type 0
  IsReachable host = (ips : List net.Address) × (addresses host ≡ some ips) × All IsOpen ips

  blocked_egress_ip-IsOpen : (ip : net.Address) → (blocked_egress_ip ip ≡ false) ↔ IsOpen ip
  unfolding blocked_egress_ip
  blocked_egress_ip-IsOpen ip = ground arith

  All-IsOpen_iff :
      (ips : List net.Address) → (some_of blocked_egress_ip ips ≡ false) ↔ All IsOpen ips
  unfolding some_of
  All-IsOpen_iff [] = ((λ h. tt), (λ h. refl))
  All-IsOpen_iff (ip ∷ ips) = (
    (λ h. (
      (blocked_egress_ip-IsOpen ip).0 (ground (arith, h)),
      (All-IsOpen_iff ips).0 (ground (arith, h)),
    )),
    (λ (o, os). ground (arith, (blocked_egress_ip-IsOpen ip).1 o, (All-IsOpen_iff ips).1 os)),
  )

  passed :
      (host : Bytes) (a : Option (List net.Address))
      → (check_addresses host a ≡ none)
        ↔ ((ips : List net.Address) × (a ≡ some ips) × All IsOpen ips)
  unfolding check_addresses
  passed host none = ground arith
  passed host (some ips) = (
    (λ h. (ips, refl, (All-IsOpen_iff ips).0 (ground (arith, h)))),
    (λ (ips', e, o).
        let h = (All-IsOpen_iff ips').1 o in ground (arith, ap (λ a. check_addresses host a) e, h)),
  )

  tests :
      (exempt local bare : Bool) (o : Option EgressError)
      → ((if exempt then none else if local then none else if bare then some empty_host else o)
          ≡ none)
        ↔ ((exempt ≡ true) ⊎ ((local ≡ true) ⊎ ((bare ≡ false) × (o ≡ none))))
  tests exempt local bare o = ground arith

  -- A connection passes the guard exactly if it is a SQLite file, or local targets are allowed (by
  -- their setting or in development mode), or its host, without the white space around it, is not
  -- empty and has addresses all of which are outside the closed ranges: loopback, link-local,
  -- multicast and unspecified.
  pub guard_conn_egress_iff :
      (cfg : Config) (c : Connection)
      → (guard_conn_egress cfg c ≡ none) ↔ (
          (str_eq (family c.kind) family_sqlite ≡ true)
          ⊎ (((cfg.allow_local_targets || cfg.dev_mode) ≡ true)
              ⊎ ((trim_space c.host ≢ []) × IsReachable (trim_space c.host))))
  unfolding guard_conn_egress guard_egress_host
  guard_conn_egress_iff cfg c = ground (
    arith,
    tests (str_eq (family c.kind) family_sqlite) (cfg.allow_local_targets || cfg.dev_mode)
        (str_eq (trim_space c.host) [])
        (check_addresses (trim_space c.host) (addresses (trim_space c.host))),
    passed (trim_space c.host) (addresses (trim_space c.host)),
    str_eq_iff (trim_space c.host) [],
  )
