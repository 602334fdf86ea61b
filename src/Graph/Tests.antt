-- ===== src/Graph/Tests.antt =====
-- A table of three contracts, read two at a time, and requests for contracts.
use downloader.Base.{
  ℕ, zero, suc, ◌≡◌, refl, ap, String, false, none, some, List, [], ◌∷◌, map, filter, take, ret,
  arith,
}
use downloader.State.{pos}
use downloader.Models.{Row}
use downloader.Models.Columns.{decode}
use downloader.Graph.Samples.{codec, row, table, entity, ethereum}
use downloader.Graph.{Edge, node_of, network_of}
use downloader.Graph.Networks.{NetworkArgs, resolve_networks, selects, resolve_networks_lem}
use downloader.Graph.Contracts.{
  Library, answered, ContractArgs, ordered, matches, page_info_of, resolve_contracts, encode_cursor,
}
use downloader.Graph.Addresses.{resolve_contracts-addresses}
use downloader.Graph.Pages.{no_fault, IsWire, IsShown, Reads}
use downloader.Graph.Pages.Reading.{resolve_contracts-Reads}

-- A number as so many characters.
tally : ℕ → String
tally zero = ""
tally (suc n) = String.◌∷◌ "a" (tally n)

count : String → ℕ
count String.[] = 0
count (String.◌∷◌ c s) = suc (count s)

abbrev head_or_zero : List ℕ → ℕ
head_or_zero [] = 0
head_or_zero (n ∷ ns) = n

abbrev library : Library
library = record {
  base64_encode = λ b. tally (head_or_zero b);
  base64_decode = λ s. some (count s ∷ []);
  gob_encode = λ n. n ∷ [];
  gob_decode = λ b. some (pos (head_or_zero b));
  int64 = λ n. n;
  limited = λ n rows. take n rows;
  is_text_of = λ n s. false;
}

count-tally : (n : ℕ) → count (tally n) ≡ n
unfolding count tally
count-tally zero = refl
count-tally (suc n) = ap suc (count-tally n)

library-IsWire : IsWire library
library-IsWire = record {
  base64_back = λ n. ap (λ m. some (m ∷ [])) (count-tally n);
  gob_back = λ n. refl;
  int64_back = λ n h. refl;
}

abbrev edge : Row → Edge
edge r = record { node = node_of codec (entity r.id); cursor = encode_cursor library (entity r.id) }

row-IsShown :
    (n : ℕ)
    → IsShown library codec [] []
        (λ r. record { node = node_of codec (entity n); cursor = encode_cursor library (entity n) })
        (row n)
unfolding decode
row-IsShown n = (entity n, refl, refl)

abbrev by_two : ContractArgs
by_two = record {
  network_ids = 1 ∷ [];
  block_numbers = [];
  block_hashes = [];
  transaction_hashes = [];
  addresses = [];
  limit = some (pos 2);
  after = none;
}

resolve_contracts-Reads_example :
    Reads library codec [] [] table by_two
      (map edge (filter (matches library by_two) (ordered table.rows)))
resolve_contracts-Reads_example =
    resolve_contracts-Reads library codec [] [] edge table 2 by_two (λ n rows h. refl)
      library-IsWire (omega arith) (omega arith) refl refl
      (((refl, refl), ((refl, refl), tt)), (((refl, refl), tt), (tt, tt)))
      (omega arith, (omega arith, (omega arith, tt)))
      (omega arith, (omega arith, (omega arith, tt)))
      (row-IsShown 1, (row-IsShown 2, (row-IsShown 3, tt)))

all_rows_match :
    map (λ r. r.id) (filter (matches library by_two) (ordered table.rows)) ≡ 1 ∷ 2 ∷ 3 ∷ []
unfolding matches
all_rows_match = refl

resolve_contracts-addresses_example :
    resolve_contracts library codec [] no_fault [] (record by_two { addresses = "0x09" ∷ [] }) table
    ≡ ret (answered (record { edges = []; page_info = page_info_of library (pos 2) [] }))
resolve_contracts-addresses_example =
    resolve_contracts-addresses library codec [] [] (record by_two { addresses = "0x09" ∷ [] })
      (pos 0) table (λ n. refl) refl refl ((λ n. refl), ((λ n. refl), ((λ n. refl), tt)))

abbrev named : NetworkArgs
named = record {
  network_id = none;
  name = some "MAIN";
  symbol = none;
  suspended = some false;
  maintenance = none;
}

resolve_networks_lem_example :
    resolve_networks named (ethereum ∷ []) ≡ map network_of (filter (selects named) (ethereum ∷ []))
resolve_networks_lem_example = resolve_networks_lem named (ethereum ∷ [])
