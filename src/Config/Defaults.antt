-- ===== src/Config/Defaults.antt =====
-- The configuration of the program and its defaults: cmd/webhook/config.go and the config.go of the
-- packages that it is made of.
use external_dns_openwrt_nex.Prelude.{true, false, []}
use external_dns_openwrt_nex.Strings.{codes}
use external_dns_openwrt_nex.Ubus.Errors.{pos}
use external_dns_openwrt_nex.Config.{Fields, end, leaf, group, pointed, inline, text, flag, whole}

abbrev pub auth_config : Fields
auth_config = leaf (codes "username") false (text []) (leaf (codes "password") false (text []) end)

abbrev pub ubus_config : Fields
ubus_config = leaf (codes "hostname") false (text []) (
    leaf (codes "port") false (whole 64 (pos 443)) (
      leaf (codes "ssl") false (flag true) (
        leaf (codes "timeout") false (whole 64 (pos 15)) (
          leaf (codes "insecure_skip_verify") false (flag false)
            (group (codes "auth") inline auth_config end)))))

abbrev pub openwrt_config : Fields
openwrt_config =
    group (codes "lucirpc") pointed ubus_config (leaf (codes "ownershipID") true (text []) end)

abbrev pub status_config : Fields
status_config =
    leaf (codes "enabled") false (flag false) (leaf (codes "namespace") false (text []) end)

abbrev pub provider_config : Fields
provider_config =
    group (codes "openwrt") pointed openwrt_config
      (group (codes "status") pointed status_config end)

abbrev pub router_config : Fields
router_config = leaf (codes "address") false (text (codes "127.0.0.1")) (
    leaf (codes "port") false (text (codes "8888"))
      (leaf (codes "healthcheck_port") false (text (codes "8080")) end))

abbrev pub logger_config : Fields
logger_config =
    leaf (codes "level") false (text (codes "info"))
      (leaf (codes "encoding") false (text (codes "json")) end)

abbrev pub default_config : Fields
default_config = leaf (codes "shutdown_timeout_seconds") false (whole 64 (pos 25)) (
    group (codes "log") pointed logger_config (
      group (codes "router") pointed router_config
        (group (codes "provider") pointed provider_config end)))
