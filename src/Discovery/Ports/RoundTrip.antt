-- ===== src/Discovery/Ports/RoundTrip.antt =====
-- Printing and reading ports and volumes in the short syntax.
use compose_cockpit.Base.{String, false, Option, none, some, ◌≡◌, refl}
use compose_cockpit.Base.Text.{cat, has, split_n}
use compose_cockpit.Base.Text.Laws.{sep, cut-cat, cut-lacks, last_cut-cat, split-cat, split-lacks}
use compose_cockpit.Discovery.Ports.{parse_port_string, parse_volume_string, mount_type}
use compose_cockpit.Domain.Project.{PortMapping}
use compose_cockpit.Docker.History.{contains_text}

-- A mapping in the long form of the short syntax.
abbrev pub port_text : PortMapping → String
port_text m =
    cat (cat m.host_ip (sep ":" (cat m.host_port (sep ":" m.container_port)))) (sep "/" m.protocol)

-- Reading a port that was printed gives it back, if no part holds a colon and the protocol no slash.
parse_port_string-port_text :
    (m : PortMapping)
    → has ":" m.host_ip ≡ false
    → has ":" m.host_port ≡ false
    → has ":" m.container_port ≡ false
    → has "/" m.protocol ≡ false
    → parse_port_string (port_text m) ≡ some m
unfolding parse_port_string
parse_port_string-port_text m ip host container protocol =
    rw
      (
        last_cut-cat "/" (cat m.host_ip (sep ":" (cat m.host_port (sep ":" m.container_port))))
            m.protocol protocol,
        parse_port_string,
        split-cat ":" m.host_ip _ ip,
        split-cat ":" m.host_port _ host,
        split-lacks ":" _ container,
      )
      refl

-- A volume in the short syntax with two or three parts.
abbrev pub volume_text : String → String → Option String → String
volume_text source target none = cat source (sep ":" target)
volume_text source target (some mode) = cat source (sep ":" (cat target (sep ":" mode)))

-- Reading a volume gives its source and its target, read-only if the mode holds "ro", and a bind mount
-- exactly if the source starts with "/", "./" or "~".
pub parse_volume_string-volume_text :
    (source target : String) (mode : Option String)
    → has ":" source ≡ false
    → has ":" target ≡ false
    → parse_volume_string (volume_text source target mode) ≡ record {
      source = source;
      target = target;
      type = mount_type source;
      read_only = elim mode [ none ↦ false | some m ↦ contains_text m "ro" ];
    }
unfolding parse_volume_string split_n
parse_volume_string-volume_text source target none s t =
    rw (parse_volume_string, split_n, cut-cat ":" source target s, cut-lacks ":" target t) refl
parse_volume_string-volume_text source target (some mode) s t =
    rw
      (
        parse_volume_string,
        split_n,
        cut-cat ":" source (cat target (sep ":" mode)) s,
        cut-cat ":" target mode t,
      )
      refl
