-- ===== src/Settings.antt =====
-- include/hound/type/capture_option.hpp: the options of the program, with their defaults.
-- `int32_t` fields are integers, unsigned fields and sizes are numbers; texts are lists of bytes.

use huntind.Common.{ℕ, [], ◌∷◌, Bool, false, ℤ, pos, negsuc}
use huntind.Strings.{Text}

pub record CaptureOption : Type 0 where
  pub payload : ℤ
  pub total_bytes : ℕ
  pub num_packets : ℤ
  pub flow_timeout : ℤ
  pub include_ts : Bool
  pub include_pktlen : Bool
  pub include_5tpl : Bool
  pub verbose : Bool
  pub fill_bit : ℤ
  pub stride : ℤ
  pub workers : ℤ
  pub wait1 : ℤ
  pub wait2 : ℤ
  pub device : Text
  pub filter : Text
  pub output_file : Text
  pub model_path : Text
  pub min_packets : ℤ
  pub max_packets : ℤ
  pub duration : ℤ
  pub separator : Text
  pub format : Text
  pub pool_size : ℕ
  pub num_gpus : ℕ
  pub num_cpus : ℕ
  pub brokers : Text
  pub topic : Text

abbrev pub default_option : CaptureOption
default_option = record {
  payload = pos 20;
  total_bytes = 128;
  num_packets = negsuc 0;
  flow_timeout = pos 20;
  include_ts = false;
  include_pktlen = false;
  include_5tpl = false;
  verbose = false;
  fill_bit = pos 0;
  stride = pos 8;
  workers = pos 1;
  wait1 = pos 3;
  wait2 = pos 10;
  device = [];
  filter = [];
  output_file = [];
  model_path = [];
  min_packets = pos 10;
  max_packets = pos 100;
  duration = negsuc 0;
  separator = b',' ∷ [];
  format = b'%' ∷ b'l' ∷ b'd' ∷ b',' ∷ [];
  pool_size = 4;
  num_gpus = 4;
  num_cpus = 16;
  brokers = [];
  topic = [];
}
