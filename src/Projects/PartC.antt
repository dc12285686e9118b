-- ===== src/Projects/PartC.antt =====
-- Entries of PROJECTS of scripts/run_oss_batch_after_read_check_elimination.py: from sed to
-- curl.
use desan.Prelude.{false, none, some, [], ◌++◌}
use desan.Py.Text.{codes}
use desan.Driver.{Project}

abbrev pub sed : Project
sed = record {
  archive = some (codes "https://ftp.gnu.org/gnu/sed/sed-4.9.tar.xz");
  repo = none;
  ref = [];
  submodules = false;
  build = some (
      codes "./configure CC=\"$CC\" CFLAGS=\"$CFLAGS\" --disable-nls && make -j\"$JOBS\" "
      ++ codes "sed/sed");
  artifact = codes "sed/sed";
  run =
      codes "for i in $(seq 1 \"$LOOPS\"); do \"$APP\" \"s/needle/replaced/g\" "
      ++ codes "\"$BENCH/input.txt\" >/dev/null; done";
}

abbrev pub gawk : Project
gawk = record {
  archive = some (codes "https://ftp.gnu.org/gnu/gawk/gawk-5.3.0.tar.xz");
  repo = none;
  ref = [];
  submodules = false;
  build = some (
      codes "./configure CC=\"$CC\" CFLAGS=\"$CFLAGS\" --disable-nls "
      ++ codes "--without-readline && make -j\"$JOBS\"");
  artifact = codes "gawk";
  run =
      codes "for i in $(seq 1 \"$LOOPS\"); do \"$APP\" \"{ s += length($0) } END { "
      ++ codes "print s }\" \"$BENCH/input.txt\" >/dev/null; done";
}

abbrev pub coreutils : Project
coreutils = record {
  archive = some (codes "https://ftp.gnu.org/gnu/coreutils/coreutils-9.5.tar.xz");
  repo = none;
  ref = [];
  submodules = false;
  build = some (
      codes "./configure CC=\"$CC\" CFLAGS=\"$CFLAGS\" --disable-nls "
      ++ codes "--enable-no-install-program=stdbuf && make -j\"$JOBS\"");
  artifact = codes "src/wc";
  run =
      codes "for i in $(seq 1 \"$LOOPS\"); do \"$APP\" \"$BENCH/input.txt\" >/dev/null; "
      ++ codes "\"$BUILD/src/sort\" \"$BENCH/input.txt\" >/dev/null; done";
}

abbrev pub findutils : Project
findutils = record {
  archive = some (codes "https://ftp.gnu.org/gnu/findutils/findutils-4.10.0.tar.xz");
  repo = none;
  ref = [];
  submodules = false;
  build =
      some (codes "./configure CC=\"$CC\" CFLAGS=\"$CFLAGS\" --disable-nls && make -j\"$JOBS\"");
  artifact = codes "find/find";
  run =
      codes "for i in $(seq 1 \"$LOOPS\"); do \"$APP\" \"$BENCH/tree\" -type f -name "
      ++ codes "\"*.txt\" -print >/dev/null; done";
}

abbrev pub diffutils : Project
diffutils = record {
  archive = some (codes "https://ftp.gnu.org/gnu/diffutils/diffutils-3.10.tar.xz");
  repo = none;
  ref = [];
  submodules = false;
  build =
      some (codes "./configure CC=\"$CC\" CFLAGS=\"$CFLAGS\" --disable-nls && make -j\"$JOBS\"");
  artifact = codes "src/diff";
  run =
      codes "for i in $(seq 1 \"$LOOPS\"); do \"$APP\" \"$BENCH/input.txt\" "
      ++ codes "\"$BENCH/input2.txt\" >/dev/null || true; done";
}

abbrev pub tar : Project
tar = record {
  archive = some (codes "https://ftp.gnu.org/gnu/tar/tar-1.35.tar.xz");
  repo = none;
  ref = [];
  submodules = false;
  build =
      some (codes "./configure CC=\"$CC\" CFLAGS=\"$CFLAGS\" --disable-nls && make -j\"$JOBS\"");
  artifact = codes "src/tar";
  run =
      codes "for i in $(seq 1 \"$LOOPS\"); do rm -f \"$BENCH/archive.tar\"; \"$APP\" -cf "
      ++ codes "\"$BENCH/archive.tar\" -C \"$BENCH/tree\" .; \"$APP\" -tf "
      ++ codes "\"$BENCH/archive.tar\" >/dev/null; done";
}

abbrev pub m4 : Project
m4 = record {
  archive = some (codes "https://ftp.gnu.org/gnu/m4/m4-1.4.19.tar.xz");
  repo = none;
  ref = [];
  submodules = false;
  build =
      some (codes "./configure CC=\"$CC\" CFLAGS=\"$CFLAGS\" --disable-nls && make -j\"$JOBS\"");
  artifact = codes "src/m4";
  run =
      codes "for i in $(seq 1 \"$LOOPS\"); do \"$APP\" \"$BENCH/input.m4\" >/dev/null; "
      ++ codes "done";
}

abbrev pub make : Project
make = record {
  archive = some (codes "https://ftp.gnu.org/gnu/make/make-4.4.1.tar.gz");
  repo = none;
  ref = [];
  submodules = false;
  build =
      some (codes "./configure CC=\"$CC\" CFLAGS=\"$CFLAGS\" --disable-nls && make -j\"$JOBS\"");
  artifact = codes "make";
  run =
      codes "for i in $(seq 1 \"$LOOPS\"); do \"$APP\" -f \"$BENCH/Makefile.small\" -n "
      ++ codes ">/dev/null; done";
}

abbrev pub busybox : Project
busybox = record {
  archive = none;
  repo = some (codes "https://github.com/mirror/busybox.git");
  ref = codes "1_36_1";
  submodules = false;
  build = some (
      codes "make defconfig && sed -i -e \"s/^CONFIG_TC=y/# CONFIG_TC is not set/\" "
      ++ codes "-e \"s/^CONFIG_FEATURE_TC_INGRESS=y/# CONFIG_FEATURE_TC_INGRESS is not "
      ++ codes "set/\" .config && yes \"\" | make oldconfig && make -j\"$JOBS\" CC=\"$CC\" "
      ++ codes "CFLAGS=\"$CFLAGS\" busybox");
  artifact = codes "busybox";
  run =
      codes "for i in $(seq 1 \"$LOOPS\"); do \"$APP\" wc \"$BENCH/input.txt\" "
      ++ codes ">/dev/null; \"$APP\" grep needle \"$BENCH/input.txt\" >/dev/null; done";
}

abbrev pub file : Project
file = record {
  archive = some (codes "https://astron.com/pub/file/file-5.45.tar.gz");
  repo = none;
  ref = [];
  submodules = false;
  build = some (
      codes "./configure CC=\"$CC\" CFLAGS=\"$CFLAGS\" --disable-shared "
      ++ codes "--enable-static --disable-libseccomp && make -j\"$JOBS\"");
  artifact = codes "src/file";
  run =
      codes "for i in $(seq 1 \"$LOOPS\"); do \"$APP\" \"$BENCH/input.txt\" "
      ++ codes "\"$BENCH/input.ppm\" >/dev/null; done";
}

abbrev pub curl : Project
curl = record {
  archive = some (codes "https://curl.se/download/curl-8.8.0.tar.xz");
  repo = none;
  ref = [];
  submodules = false;
  build = some (
      codes "./configure CC=\"$CC\" CFLAGS=\"$CFLAGS\" --disable-shared "
      ++ codes "--enable-static --without-ssl --without-zlib --without-brotli "
      ++ codes "--without-zstd --without-libpsl --disable-ldap --disable-ldaps "
      ++ codes "--disable-rtsp --disable-dict --disable-telnet --disable-tftp "
      ++ codes "--disable-pop3 --disable-imap --disable-smtp --disable-gopher "
      ++ codes "--disable-mqtt --disable-manual && make -j\"$JOBS\"");
  artifact = codes "src/curl";
  run =
      codes "for i in $(seq 1 \"$LOOPS\"); do \"$APP\" --version >/dev/null; \"$APP\" "
      ++ codes "file://\"$BENCH/input.txt\" >/dev/null; done";
}
