-- ===== src/Config/Required.antt =====
-- pkg/openwrt/config.go: the ownership ID has to be given.
use external_dns_openwrt_nex.Config.{
  flag, whole, Leaf, assign, text, Environment, read, set_leaf, env_key,
}
use external_dns_openwrt_nex.Ubus.Errors.{pos}
use external_dns_openwrt_nex.Prelude.{Bool, true, false, [], none, some, ◌≡◌, refl, ◌≢◌}
use external_dns_openwrt_nex.Strings.Laws.{eq_iff}
use external_dns_openwrt_nex.Strings.{◌==◌, Str, codes, join}
use external_dns_openwrt_nex.Config.Defaults.{default_config}
use external_dns_openwrt_nex.Config.Leaves.{read-ok_iff}

abbrev pub required_name : Str
required_name = codes "provider_openwrt_ownershipID"

differ : (a b : Str) → (a == b) ≡ false → a ≢ b
differ a b h e = cc (h, (eq_iff a b).1 e)

module _ ⦃env : Environment⦄ where
  set_leaf-unset :
      (key : Str) (l : Leaf) → env.lookup_env key ≡ none → (set_leaf key false l).0 ≡ none
  unfolding set_leaf
  set_leaf-unset key l unset = rw (unset, set_leaf) refl

  set_leaf-missing :
      (key : Str) (l : Leaf) → env.lookup_env key ≡ none → (set_leaf key true l).0 ≢ none
  unfolding set_leaf
  set_leaf-missing key l unset h = cc (rw (unset, set_leaf) at h)

  set_leaf-text :
      (key raw old : Str) (required : Bool)
      → env.lookup_env key ≡ some raw
      → (set_leaf key required (text old)).0 ≡ none
  unfolding set_leaf assign
  set_leaf-text key raw old required set = rw (set, set_leaf) refl

  -- With the defaults, `Read` fails where PROVIDER_OPENWRT_OWNERSHIPID is not set; and where it is
  -- set, to whatever value, the empty one included, and none of the other variables is, `Read`
  -- succeeds.
  pub default_config-required :
      (env.lookup_env (env.to_upper required_name) ≡ none → (read default_config).0 ≢ none)
      × ((raw : Str)
          → env.lookup_env (env.to_upper required_name) ≡ some raw
          → ((name : Str) → name ≢ required_name → env.lookup_env (env.to_upper name) ≡ none)
          → (read default_config).0 ≡ none)
  unfolding env_key join ◌==◌
  default_config-required = (
    λ unset h.
        let taken = (read-ok_iff default_config).0 h in
        set_leaf-missing (env.to_upper required_name) (text []) unset
          taken.1.1.1.1.1.1.1.1.1.1.1.1.1.0,
    λ raw set others.
        let other = λ (name : Str) (l : Leaf) (apart : (name == required_name) ≡ false).
          set_leaf-unset (env.to_upper name) l (others name (differ name required_name apart)) in
        (read-ok_iff default_config).1 (
          other (codes "shutdown_timeout_seconds") (whole 64 (pos 25)) refl,
          (
            other (codes "log_level") (text (codes "info")) refl,
            (
              other (codes "log_encoding") (text (codes "json")) refl,
              (
                other (codes "router_address") (text (codes "127.0.0.1")) refl,
                (
                  other (codes "router_port") (text (codes "8888")) refl,
                  (
                    other (codes "router_healthcheck_port") (text (codes "8080")) refl,
                    (
                      other (codes "provider_openwrt_lucirpc_hostname") (text []) refl,
                      (
                        other (codes "provider_openwrt_lucirpc_port") (whole 64 (pos 443)) refl,
                        (
                          other (codes "provider_openwrt_lucirpc_ssl") (flag true) refl,
                          (
                            other (codes "provider_openwrt_lucirpc_timeout") (whole 64 (pos 15))
                                refl,
                            (
                              other (codes "provider_openwrt_lucirpc_insecure_skip_verify")
                                  (flag false) refl,
                              (
                                other (codes "provider_openwrt_lucirpc_auth_username") (text [])
                                    refl,
                                (
                                  other (codes "provider_openwrt_lucirpc_auth_password") (text [])
                                      refl,
                                  (
                                    set_leaf-text (env.to_upper required_name) raw [] true set,
                                    (
                                      other (codes "provider_status_enabled") (flag false) refl,
                                      (
                                        other (codes "provider_status_namespace") (text []) refl,
                                        tt,
                                      ),
                                    ),
                                  ),
                                ),
                              ),
                            ),
                          ),
                        ),
                      ),
                    ),
                  ),
                ),
              ),
            ),
          ),
        ),
  )
