-- ===== src/Tests/OfSdkStore.antt =====
-- The theorems of the client's store at concrete inputs.
use wispers_access.Prelude.{
  List, Result, [], byte_len, codes, err, false, none, ok, refl, some, text_eq, true, utf8_len, ◌∷◌,
  ◌≡◌,
}
use wispers_access.Prelude.Decimals.{decimal_digits, to_decimal}
use wispers_access.Sdk.Store.Db.{
  constraint, read_column, update_share, answer, query, statement, transaction, with_faults, Db,
  Error,
}
use wispers_access.Sdk.Store.History.{
  Op, no_rows_yet, no_rows_yet-IsValid, run_all, run_all-IsValid,
}
use wispers_access.Sdk.Store.Hostnames.{
  candidate, set_hostname, try_candidates, write_deduped_hostname, write_deduped_hostname_within,
  write_hostname,
}
use wispers_access.Sdk.Store.Hostnames.Claims.{
  ComesFrom, write_deduped_hostname-Claims, write_deduped_hostname-ends,
}
use wispers_access.Sdk.Store.Hostnames.Loop.{Claims, named}
use wispers_access.Sdk.Store.Info.{
  delete_apps, insert_app, insert_apps, read_apps, write_info_columns, write_share_info,
}
use wispers_access.Sdk.Store.InfoLaws.{write_share_info-err, write_share_info-read}
use wispers_access.Sdk.Store.Rows.{
  clean_up_incomplete_rows, read_ca_certificates, read_names, read_share_config_hash, share_id_of,
}
use wispers_access.Sdk.Store.Sweep.{clean_up_incomplete_rows-keeps}
use wispers_access.Sdk.Store.Valid.{IsValid}
use wispers_access.Tests.SdkSample.{codec, codec-ReadsBack, family, jellyfin_app, two, two_shares}
use wispers_access.Wire.Share.{ShareInfo}

write_deduped_hostname-ends_example :
    ¬ ((write_deduped_hostname 2 (codes "family") (with_faults [] two_shares)).0 ≡ ok none)
write_deduped_hostname-ends_example =
    write_deduped_hostname-ends 2 (codes "family") (with_faults [] two_shares)

second_label :
    write_deduped_hostname 2 (codes "family") (with_faults [] two_shares)
    ≡ (ok (some (codes "family-2")), with_faults [] (named 2 (codes "family-2") two_shares))
unfolding write_deduped_hostname write_deduped_hostname_within share_id_of read_column query
    statement try_candidates candidate write_hostname set_hostname byte_len utf8_len text_eq
    to_decimal decimal_digits
second_label = refl

write_deduped_hostname-Claims_example :
    Claims 2 (codes "family") (codes "family-2") two_shares (named 2 (codes "family-2") two_shares)
    × ComesFrom 2 (codes "family") (codes "family-2") two_shares
write_deduped_hostname-Claims_example =
    write_deduped_hostname-Claims 2 (codes "family") (codes "family-2") (with_faults [] two_shares)
      (with_faults [] (named 2 (codes "family-2") two_shares)) second_label

abbrev joins : List Op
joins =
    Op.add (codes "s1") 5
    ∷ Op.share_info 1 family
    ∷ Op.hostname 1 (codes "family")
    ∷ Op.complete 1
    ∷ Op.add (codes "s2") 6
    ∷ Op.hostname 2 (codes "family")
    ∷ Op.delete 1
    ∷ Op.sweep
    ∷ []

run_all-IsValid_example :
    IsValid (run_all codec joins (with_faults (false ∷ true ∷ []) no_rows_yet)).tables
run_all-IsValid_example =
    run_all-IsValid codec joins (with_faults (false ∷ true ∷ []) no_rows_yet) no_rows_yet-IsValid

clean_up_incomplete_rows-keeps_example :
    (clean_up_incomplete_rows (run_all codec joins (with_faults [] no_rows_yet))).1.tables
    ≡ (run_all codec joins (with_faults [] no_rows_yet)).tables
clean_up_incomplete_rows-keeps_example = clean_up_incomplete_rows-keeps codec joins []

abbrev written : Db
written = (write_share_info codec 2 family (with_faults [] two_shares)).1

writes : write_share_info codec 2 family (with_faults [] two_shares) ≡ (ok tt, written)
unfolding write_share_info transaction statement write_info_columns update_share delete_apps
    insert_apps insert_app text_eq
writes = refl

write_share_info-read_example :
    (answer (read_apps codec 2) written.tables ≡ ok (jellyfin_app ∷ []))
    × ((answer (read_share_config_hash 2) written.tables ≡ ok (some 7))
        × ((answer (read_ca_certificates codec 2) written.tables ≡ ok [])
            × (answer (read_names 2) written.tables ≡ ok (codes "s2", (codes "Family", [])))))
write_share_info-read_example =
    write_share_info-read codec codec-ReadsBack 2 family two (with_faults [] two_shares) written
      refl refl writes

abbrev doubled : ShareInfo
doubled = record family { apps = jellyfin_app ∷ jellyfin_app ∷ [] }

abbrev refused_write : Result Error (Unit {0}) × Db
refused_write = write_share_info codec 2 doubled (with_faults [] two_shares)

refuses : refused_write ≡ (err constraint, refused_write.1)
unfolding write_share_info transaction statement write_info_columns update_share delete_apps
    insert_apps insert_app text_eq
refuses = refl

write_share_info-err_example : refused_write.1.tables ≡ two_shares
write_share_info-err_example =
    write_share_info-err codec 2 doubled constraint (with_faults [] two_shares) refused_write.1
      refuses
