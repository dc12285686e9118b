-- ===== src/Projects/PartB.antt =====
-- Entries of PROJECTS of scripts/run_oss_batch_after_read_check_elimination.py: from pigz to
-- grep.
use desan.Prelude.{true, false, none, some, [], ◌++◌}
use desan.Py.Text.{codes}
use desan.Driver.{Project}

abbrev pub pigz : Project
pigz = record {
  archive = none;
  repo = some (codes "https://github.com/madler/pigz.git");
  ref = codes "v2.8";
  submodules = false;
  build = some (codes "make -j\"$JOBS\" CC=\"$CC\" CFLAGS=\"$CFLAGS\" pigz");
  artifact = codes "pigz";
  run =
      codes "for i in $(seq 1 \"$LOOPS\"); do \"$APP\" -c \"$BENCH/input.txt\" "
      ++ codes ">\"$BENCH/input.txt.gz\"; \"$APP\" -d -c \"$BENCH/input.txt.gz\" "
      ++ codes ">/dev/null; rm -f \"$BENCH/input.txt.gz\"; done";
}

abbrev pub libdeflate : Project
libdeflate = record {
  archive = none;
  repo = some (codes "https://github.com/ebiggers/libdeflate.git");
  ref = codes "v1.20";
  submodules = false;
  build = some (
      codes "cmake -S . -B build -G Ninja -DCMAKE_C_COMPILER=\"$CC\" "
      ++ codes "-DCMAKE_C_FLAGS=\"$CFLAGS\" -DLIBDEFLATE_BUILD_SHARED_LIB=OFF "
      ++ codes "-DLIBDEFLATE_BUILD_GZIP=ON -DLIBDEFLATE_BUILD_TESTS=OFF && cmake "
      ++ codes "--build build --target libdeflate-gzip -j\"$JOBS\"");
  artifact = codes "build/programs/libdeflate-gzip";
  run =
      codes "for i in $(seq 1 \"$LOOPS\"); do \"$APP\" -c \"$BENCH/input.txt\" "
      ++ codes ">\"$BENCH/input.txt.gz\"; \"$APP\" -d -c \"$BENCH/input.txt.gz\" "
      ++ codes ">/dev/null; rm -f \"$BENCH/input.txt.gz\"; done";
}

abbrev pub zopfli : Project
zopfli = record {
  archive = none;
  repo = some (codes "https://github.com/google/zopfli.git");
  ref = codes "zopfli-1.0.3";
  submodules = false;
  build = some (codes "make -j\"$JOBS\" CC=\"$CC\" CFLAGS=\"$CFLAGS\" zopfli");
  artifact = codes "zopfli";
  run =
      codes "for i in $(seq 1 \"$LOOPS\"); do \"$APP\" --gzip -c \"$BENCH/small.txt\" "
      ++ codes ">\"$BENCH/small.txt.gz\"; rm -f \"$BENCH/small.txt.gz\"; done";
}

abbrev pub xxhash : Project
xxhash = record {
  archive = none;
  repo = some (codes "https://github.com/Cyan4973/xxHash.git");
  ref = codes "v0.8.2";
  submodules = false;
  build = some (codes "make -j\"$JOBS\" CC=\"$CC\" CFLAGS=\"$CFLAGS\" xxhsum");
  artifact = codes "xxhsum";
  run =
      codes "for i in $(seq 1 \"$LOOPS\"); do \"$APP\" \"$BENCH/input.txt\" >/dev/null; "
      ++ codes "done";
}

abbrev pub sqlite : Project
sqlite = record {
  archive = some (codes "https://www.sqlite.org/2024/sqlite-autoconf-3460000.tar.gz");
  repo = none;
  ref = [];
  submodules = false;
  build = some (
      codes "./configure CC=\"$CC\" CFLAGS=\"$CFLAGS\" --disable-shared "
      ++ codes "--enable-static --disable-readline && make -j\"$JOBS\" sqlite3");
  artifact = codes "sqlite3";
  run =
      codes "for i in $(seq 1 \"$LOOPS\"); do echo \"PRAGMA cache_size=1000; CREATE "
      ++ codes "TABLE t(a,b); INSERT INTO t VALUES(1,2),(3,4),(5,6); SELECT sum(a*b) "
      ++ codes "FROM t;\" | \"$APP\" >/dev/null; done";
}

abbrev pub lua : Project
lua = record {
  archive = some (codes "https://www.lua.org/ftp/lua-5.4.7.tar.gz");
  repo = none;
  ref = [];
  submodules = false;
  build = some (codes "make -j\"$JOBS\" linux CC=\"$CC\" MYCFLAGS=\"$CFLAGS\"");
  artifact = codes "src/lua";
  run =
      codes "for i in $(seq 1 \"$LOOPS\"); do \"$APP\" \"$BENCH/script.lua\" >/dev/null; "
      ++ codes "done";
}

abbrev pub quickjs : Project
quickjs = record {
  archive = some (codes "https://bellard.org/quickjs/quickjs-2024-01-13.tar.xz");
  repo = none;
  ref = [];
  submodules = false;
  build = some (
      codes "ver=$(cat VERSION); make -j\"$JOBS\" CC=\"$CC\" CONFIG_LTO= "
      ++ codes "CFLAGS_OPT=\"$CFLAGS -D_GNU_SOURCE -DCONFIG_VERSION=\\\\\\\"$ver\\\\\\\" "
      ++ codes "-DCONFIG_BIGNUM\" qjs");
  artifact = codes "qjs";
  run =
      codes "for i in $(seq 1 \"$LOOPS\"); do \"$APP\" \"$BENCH/script.js\" >/dev/null; "
      ++ codes "done";
}

abbrev pub duktape : Project
duktape = record {
  archive = some (codes "https://duktape.org/duktape-2.7.0.tar.xz");
  repo = none;
  ref = [];
  submodules = false;
  build = some (
      codes "mkdir -p obj && COMMON=\"$CFLAGS -pedantic -std=c99 -Wall "
      ++ codes "-fstrict-aliasing -I./examples/cmdline -I./src "
      ++ codes "-DDUK_CMDLINE_PRINTALERT_SUPPORT -I./extras/print-alert "
      ++ codes "-DDUK_CMDLINE_CONSOLE_SUPPORT -I./extras/console "
      ++ codes "-DDUK_CMDLINE_LOGGING_SUPPORT -I./extras/logging "
      ++ codes "-DDUK_CMDLINE_MODULE_SUPPORT -I./extras/module-duktape\" && \"$CC\" "
      ++ codes "$COMMON -c src/duktape.c -o obj/duktape.o && \"$CC\" $COMMON -c "
      ++ codes "examples/cmdline/duk_cmdline.c -o obj/duk_cmdline.o && \"$CC\" $COMMON "
      ++ codes "-c extras/print-alert/duk_print_alert.c -o obj/duk_print_alert.o && "
      ++ codes "\"$CC\" $COMMON -c extras/console/duk_console.c -o obj/duk_console.o && "
      ++ codes "\"$CC\" $COMMON -c extras/logging/duk_logging.c -o obj/duk_logging.o && "
      ++ codes "\"$CC\" $COMMON -c extras/module-duktape/duk_module_duktape.c -o "
      ++ codes "obj/duk_module_duktape.o && \"$CC\" -o duk obj/duktape.o "
      ++ codes "obj/duk_cmdline.o obj/duk_print_alert.o obj/duk_console.o "
      ++ codes "obj/duk_logging.o obj/duk_module_duktape.o -lm");
  artifact = codes "duk";
  run =
      codes "for i in $(seq 1 \"$LOOPS\"); do \"$APP\" \"$BENCH/script.js\" >/dev/null; "
      ++ codes "done";
}

abbrev pub jq : Project
jq = record {
  archive = none;
  repo = some (codes "https://github.com/jqlang/jq.git");
  ref = codes "jq-1.7.1";
  submodules = true;
  build = some (
      codes "autoreconf -fi && ./configure CC=\"$CC\" CFLAGS=\"$CFLAGS\" "
      ++ codes "--disable-shared --enable-static --with-oniguruma=builtin && make -j1 "
      ++ codes "-C modules/oniguruma && make -j1 src/builtin.inc src/config_opts.inc "
      ++ codes "src/version.h && make -j1 jq");
  artifact = codes "jq";
  run =
      codes "for i in $(seq 1 \"$LOOPS\"); do \"$APP\" \".items | map(.value) | add\" "
      ++ codes "\"$BENCH/input.json\" >/dev/null; done";
}

abbrev pub grep : Project
grep = record {
  archive = some (codes "https://ftp.gnu.org/gnu/grep/grep-3.11.tar.xz");
  repo = none;
  ref = [];
  submodules = false;
  build = some (
      codes "./configure CC=\"$CC\" CFLAGS=\"$CFLAGS\" --disable-nls "
      ++ codes "--disable-perl-regexp && make -j\"$JOBS\"");
  artifact = codes "src/grep";
  run =
      codes "for i in $(seq 1 \"$LOOPS\"); do \"$APP\" -E \"needle|line\" "
      ++ codes "\"$BENCH/input.txt\" >/dev/null; done";
}
