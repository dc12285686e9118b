-- ===== src/Projects/PartF.antt =====
-- Entries of PROJECTS of scripts/run_oss_batch_after_read_check_elimination.py: from libarchive to
-- cjson.
use desan.Prelude.{false, none, some, [], ◌++◌}
use desan.Py.Text.{codes}
use desan.Driver.{Project}

abbrev pub libarchive : Project
libarchive = record {
  archive = some (
      codes
        "https://github.com/libarchive/libarchive/releases/download/v3.7.4/libarchive-3.7.4.tar.xz");
  repo = none;
  ref = [];
  submodules = false;
  build = some (
      codes "./configure CC=\"$CC\" CFLAGS=\"$CFLAGS\" --disable-shared "
      ++ codes "--enable-static --without-bz2lib --without-iconv --without-lz4 "
      ++ codes "--without-lzma --without-lzo2 --without-nettle --without-openssl "
      ++ codes "--without-xml2 --without-zlib --without-zstd && make -j\"$JOBS\"");
  artifact = codes "bsdtar";
  run =
      codes "for i in $(seq 1 \"$LOOPS\"); do rm -f \"$BENCH/bsd.tar\"; \"$APP\" -cf "
      ++ codes "\"$BENCH/bsd.tar\" -C \"$BENCH/tree\" .; \"$APP\" -tf \"$BENCH/bsd.tar\" "
      ++ codes ">/dev/null; done";
}

abbrev pub json_c : Project
json_c = record {
  archive =
      some (codes "https://github.com/json-c/json-c/archive/refs/tags/json-c-0.17-20230812.tar.gz");
  repo = none;
  ref = [];
  submodules = false;
  build = some (
      codes "cmake -S . -B build -G Ninja -DCMAKE_C_COMPILER=\"$CC\" "
      ++ codes "-DCMAKE_C_FLAGS=\"$CFLAGS\" -DBUILD_SHARED_LIBS=OFF -DBUILD_TESTING=OFF "
      ++ codes "&& cmake --build build -j\"$JOBS\"");
  artifact = codes "build/libjson-c.a";
  run = codes "for i in $(seq 1 \"$LOOPS\"); do test -f \"$APP\"; done";
}

abbrev pub cjson : Project
cjson = record {
  archive = some (codes "https://github.com/DaveGamble/cJSON/archive/refs/tags/v1.7.18.tar.gz");
  repo = none;
  ref = [];
  submodules = false;
  build = some (
      codes "cmake -S . -B build -G Ninja -DCMAKE_C_COMPILER=\"$CC\" "
      ++ codes "-DCMAKE_C_FLAGS=\"$CFLAGS\" -DBUILD_SHARED_LIBS=OFF "
      ++ codes "-DENABLE_CJSON_TEST=ON -DENABLE_CJSON_UTILS=ON && cmake --build build "
      ++ codes "-j\"$JOBS\"");
  artifact = codes "build/libcjson.a";
  run = codes "for i in $(seq 1 \"$LOOPS\"); do test -f \"$APP\"; done";
}
