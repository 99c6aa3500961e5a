-- ===== src/Encode/Examples.antt =====
-- Tensors that are lists, a flow of six packets, and the theorems of the encoder on them.
use huntind.Encode.Concurrent.{build_concurrently}
use huntind.Encode.Concurrent.Windows.{build_concurrently-windows}
use huntind.Encode.Jobs.{encode_flow_tensors, encode_flow_list}
use huntind.Encode.Jobs.Maxima.{encode_flow_tensors-Returns}
use huntind.Encode.Jobs.Accounts.{encode_flow_list-Returns}
use huntind.Encode.Normalise.{Numbers, Normalised}
use huntind.Common.{
  ◌-◌, ◌/◌, ◌==◌, false, max, All, ℕ, true, ◌+◌, ◌*◌, ◌≤◌, ◌<◌, ◌≡◌, refl, List, [], ◌∷◌, length,
  arith,
}
use huntind.Common.Outcome.{ok}
use huntind.Log.{Build}
use huntind.Strings.{codes}
use huntind.Settings.{default_option}
use huntind.Packet.{ParsedPacket, zeros}
use huntind.Packet.Examples.{there, there_parsed, all_bytes-IsByte}
use huntind.Flow.{Flow}
use huntind.Encode.Torch.{Tensors, list_tensors}
use huntind.Encode.Rows.{packet_to_tensor-row}
use huntind.Encode.Total.{IsLong, build_slide_window-Returns}
use huntind.Encode.Windows.{Covers}
use huntind.Encode.Batches.{copies, batch_encode-copies, batch_encode-slice}
use huntind.Encode.{
  Slides, packet_to_tensor, build_slide_window, batch_encode, encode_rounds, concat_results,
}

abbrev pub bytes : Tensors ℕ
bytes = list_tensors ℕ

abbrev packet : ParsedPacket
packet = record {
  protocol = 17;
  ts_sec = 1;
  ts_usec = 0;
  cap_len = 60;
  key = codes "a";
  blob_data = zeros 148;
  has_content = true;
}

abbrev flow : Flow
flow = record {
  protocol = 17;
  count = 6;
  flow_id = codes "a";
  packet_list = packet ∷ packet ∷ packet ∷ packet ∷ packet ∷ packet ∷ [];
}

flow-IsLong : IsLong flow
flow-IsLong = record {
  counted = refl;
  five = omega arith;
  sized = (refl, (refl, (refl, (refl, (refl, (refl, tt))))));
}

packet_to_tensor-row_example :
    (row : List ℕ) × (packet_to_tensor bytes there_parsed.0 6 ≡ ok row) × (length row ≡ 136)
packet_to_tensor-row_example =
    packet_to_tensor-row bytes default_option there there_parsed.0 6 refl
      (all_bytes-IsByte there.byte_arr refl) there_parsed.1 there_parsed.2

build_slide_window-Returns_example :
    (s : Slides) × (build_slide_window bytes (flow ∷ flow ∷ []) 5 ≡ ok s)
    × Covers bytes s.window_list 5 (flow ∷ flow ∷ []) 0 s.index_list
build_slide_window-Returns_example =
    build_slide_window-Returns bytes (flow ∷ flow ∷ []) (omega arith)
      (flow-IsLong, (flow-IsLong, tt))

-- A model that adds one, on five rows in batches of two.
abbrev add_one : List ℕ → List ℕ
add_one [] = []
add_one (x ∷ xs) = (x + 1) ∷ add_one xs

abbrev rows : List ℕ
rows = 1 ∷ 2 ∷ 3 ∷ 4 ∷ 5 ∷ []

batch_encode-copies_example :
    (n : ℕ) × (r : List ℕ) × (batch_encode bytes add_one rows 2 ≡ ok r)
    × (r ≡ copies bytes add_one rows 2 (omega arith) n)
    × (5 ≤ n * 2)
    × (n * 2 < 5 + 2)
batch_encode-copies_example = batch_encode-copies bytes add_one rows 2 (omega arith) (omega arith)

encoded : (r : List ℕ) × (batch_encode bytes add_one rows 2 ≡ ok r)
unfolding batch_encode encode_rounds concat_results
encoded = (_, refl)

batch_encode-slice_example : Tensors.items bytes (Tensors.slice bytes encoded.0 1 3) ≡ 3 ∷ 4 ∷ []
batch_encode-slice_example =
    batch_encode-slice bytes add_one rows 2 (omega arith) 1 3 encoded.0 (omega arith) encoded.1

-- A model that gives windows back, and the greatest number in each place.
abbrev pub windows : Tensors (List ℕ)
windows = list_tensors (List ℕ)

abbrev pub same_rows : List (List ℕ) → List (List ℕ)
same_rows rows = rows

abbrev pub max_two : List ℕ → List ℕ → List ℕ
max_two [] ys = ys
max_two (x ∷ xs) [] = x ∷ xs
max_two (x ∷ xs) (y ∷ ys) = max x y ∷ max_two xs ys

abbrev pub max_all : List ℕ → List (List ℕ) → List ℕ
max_all r [] = r
max_all r (s ∷ rs) = max_two r (max_all s rs)

abbrev pub no_rows : ℕ → List (List ℕ)
no_rows count = []

-- Numbers without a sign.
abbrev pub whole_numbers : Numbers
whole_numbers = record {
  Number = ℕ;
  of_byte = λ a. a;
  sub = λ a b. a - b;
  div = λ a b. a / b;
  nan_to_num = λ a. a;
  nanmean = λ row. 1;
  std = λ row. length row - 2;
  is_zero = λ a. a == 0;
  epsilon = 1;
}

abbrev pub tensor_of : Normalised whole_numbers → List (List ℕ)
tensor_of (Normalised.matrix rows) = rows
tensor_of (Normalised.vector row) = row ∷ []

abbrev pub one_ms : List Flow → ℕ
one_ms flows = 1000

abbrev pub build : Build
build = record {
  log_level_trace = false;
  log_level_debug = false;
  log_level_info = true;
  log_level_warn = true;
  log_level_error = true;
  log_level_fatal = true;
  enable_console_log = false;
}

encodes_two :
    (fs : List Flow)
    → 0 < length fs
    → length fs ≤ 2
    → All IsLong fs
    → (rows : List (List ℕ)) × (encode_flow_tensors build bytes whole_numbers windows tensor_of
          same_rows max_all no_rows one_ms fs
        ≡ ok rows)
      × (length rows ≡ length fs)
encodes_two fs some_ few a =
    let (s, rows, built, made, maxima, size) =
      encode_flow_tensors-Returns build bytes whole_numbers windows tensor_of same_rows max_all
        no_rows one_ms (λ rows. refl) (λ x. refl) fs some_ (omega arith) a (omega arith)
        (omega arith) in
    (rows, made, size)

encode_flow_list-Returns_example :
    (rows : List (List ℕ)) × (encode_flow_list
        (encode_flow_tensors build bytes whole_numbers windows tensor_of same_rows max_all no_rows
          one_ms)
        2
        (flow ∷ flow ∷ flow ∷ [])
      ≡ ok (rows, 3))
    × (length rows ≡ 3)
encode_flow_list-Returns_example =
    encode_flow_list-Returns
      (encode_flow_tensors build bytes whole_numbers windows tensor_of same_rows max_all no_rows
        one_ms)
      2 (omega arith) IsLong encodes_two (flow ∷ flow ∷ flow ∷ []) (omega arith)
      (flow-IsLong, (flow-IsLong, (flow-IsLong, tt)))

-- Three flows on two cpus.
build_concurrently-windows_example :
    (s r : Slides) × (build_slide_window bytes (flow ∷ flow ∷ flow ∷ []) 5 ≡ ok s)
    × (build_concurrently bytes 2 (flow ∷ flow ∷ flow ∷ []) 5 ≡ ok r)
    × (r.window_list ≡ s.window_list)
    × (length r.index_list ≡ length s.index_list)
build_concurrently-windows_example =
    build_concurrently-windows bytes 2 (flow ∷ flow ∷ flow ∷ []) (omega arith) (omega arith)
      (flow-IsLong, (flow-IsLong, (flow-IsLong, tt)))
