-- ===== src/Config/Examples.antt =====
-- An environment that holds the ownership ID, and one with a port.
use external_dns_openwrt_nex.Prelude.{
  ◌-◌, ℕ, ◌&&◌, [], map, none, some, ◌≡◌, refl, leb, if◌then◌else◌,
}
use external_dns_openwrt_nex.Strings.{codes, ◌==◌}
use external_dns_openwrt_nex.Ubus.Errors.{pos, negsuc}
use external_dns_openwrt_nex.Config.{Environment, bind}
use external_dns_openwrt_nex.Config.Parse.{parse_int, wrap}
use external_dns_openwrt_nex.Config.Leaves.{leaves, set_leaves, bind-leaves}
use external_dns_openwrt_nex.Config.Defaults.{ubus_config}
use external_dns_openwrt_nex.Config.Required.{required_name}

abbrev upper : ℕ → ℕ
upper c = if leb b'a' c && leb c b'z' then c - 32 else c

instance abbrev environment : Environment
environment = record {
  lookup_env = λ k.
      if k == map upper required_name
      then some []
      else if k == codes "PORT"
      then some (codes "8443")
      else none;
  to_upper = map upper;
}

integers :
    (parse_int (codes "-9223372036854775808") ≡ some (negsuc 9223372036854775807))
    × (parse_int (codes "9223372036854775808") ≡ none)
    × (parse_int (codes "+7") ≡ some (pos 7))
    × (parse_int (codes "0x7") ≡ none)
    × (parse_int (codes "-") ≡ none)
    × (wrap 8 (pos 200) ≡ negsuc 55)
unfolding parse_int wrap
integers = (refl, refl, refl, refl, refl, refl)

bind-leaves_example :
    ((bind [] ubus_config).0, leaves [] (bind [] ubus_config).1)
    ≡ set_leaves (leaves [] ubus_config)
bind-leaves_example = bind-leaves [] ubus_config
