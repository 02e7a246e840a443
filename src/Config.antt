-- ===== src/Config.antt =====
-- config.rs: the command line and the configuration made of it. Parsing the command line is clap's.
use slmodem_sip_bridge.Base.{ℕ, ◌*◌}
use slmodem_sip_bridge.Base.Int.{ℤ}
use slmodem_sip_bridge.Text.{Text}

pub record Cli : Type 0 where
  pub dial_string : Text
  pub socket_fd : ℤ
  pub sip_local_addr : Text
  pub sip_local_rtp_port : ℕ
  pub invite_timeout_secs : ℕ
  pub telnyx_sip_user : Text
  pub telnyx_sip_pass : Text
  pub telnyx_sip_domain : Text
  pub telnyx_outbound_cid : Text
  pub telnyx_outbound_name : Text

-- The timeout is in milliseconds here.
pub record Config : Type 0 where
  pub dial_string : Text
  pub socket_fd : ℤ
  pub sip_local_addr : Text
  pub sip_local_rtp_port : ℕ
  pub invite_timeout : ℕ
  pub telnyx_sip_user : Text
  pub telnyx_sip_pass : Text
  pub telnyx_sip_domain : Text
  pub caller_id : Text
  pub caller_name : Text

unfoldable pub from_cli : Cli → Config
from_cli cli = record {
  dial_string = cli.dial_string;
  socket_fd = cli.socket_fd;
  sip_local_addr = cli.sip_local_addr;
  sip_local_rtp_port = cli.sip_local_rtp_port;
  invite_timeout = 1000 * cli.invite_timeout_secs;
  telnyx_sip_user = cli.telnyx_sip_user;
  telnyx_sip_pass = cli.telnyx_sip_pass;
  telnyx_sip_domain = cli.telnyx_sip_domain;
  caller_id = cli.telnyx_outbound_cid;
  caller_name = cli.telnyx_outbound_name;
}
